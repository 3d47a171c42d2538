-- ===== src/Base/Results.antt =====
-- The outcome of a Go function that returns `(value, error)`.
use mathlib.Core.Path.{◌≡◌, refl}
use mathlib.Core.Logic.{◌⊎◌, inl, inr}
use mathlib.Core.Bool.{Bool, true, false}

pub data Result {ℓ κ} (E : Type ℓ) (A : Type κ) : Type (ℓ ⊔ κ) where
  ok : A → Result E A
  err : E → Result E A

abbrev pub is_ok {ℓ κ} : {E : Type ℓ} {A : Type κ} → Result E A → Bool
is_ok (ok _) = true
is_ok (err _) = false

-- The next call is made only if the error is nil.
infixl 5 ◌>>=◌ ◌>>◌
abbrev pub ◌>>=◌ {ε α β} :
    {Err : Type ε} {Val : Type α} {Out : Type β}
    → Result Err Val
    → (Val → Result Err Out)
    → Result Err Out
err reason >>= next = err reason
ok value >>= next = next value

abbrev pub ◌>>◌ {ε β} :
    {Err : Type ε} {Out : Type β} → Result Err (Unit {0}) → Result Err Out → Result Err Out
err reason >> later = err reason
ok _ >> later = later

-- `if cond { return err }`
abbrev pub fail_if {ℓ} : {E : Type ℓ} → Bool → E → Result E (Unit {0})
fail_if true e = err e
fail_if false e = ok tt

pub Result-cases {ℓ κ} :
    {E : Type ℓ} {A : Type κ} (r : Result E A) → ((a : A) × (r ≡ ok a)) ⊎ ((e : E) × (r ≡ err e))
Result-cases (ok a) = inl (a, refl)
Result-cases (err e) = inr (e, refl)

-- A chain that succeeds went through its first call.
pub >>=-eq-ok {ε α β} :
    {Err : Type ε} {Val : Type α} {Out : Type β} (first : Result Err Val)
    (next : Val → Result Err Out) {out : Out}
    → (first >>= next) ≡ ok out
    → (value : Val) × (first ≡ ok value) × (next value ≡ ok out)
>>=-eq-ok (err reason) next done = cc
>>=-eq-ok (ok value) next done = (value, refl, done)
