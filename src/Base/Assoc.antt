-- ===== src/Base/Assoc.antt =====
-- Go's `map[string]V` as a list of entries, in the order in which a `range` visits them.
use Prim.Native.String.{String}
use mathlib.Core.Path.{◌≡◌, refl}
use mathlib.Core.Option.{Option, none, some}
use mathlib.Core.List.{List, [], ◌∷◌}
use native.Mathlib.Omega.{arith}
use text.Mathlib.Text.{◌==◌}
use text.Mathlib.TextEquality.{eq_iff}
use text.Mathlib.TextPositions.{eq_refl}
use aurora_old.Base.Tests.{if◌then◌else◌}

abbrev pub Assoc {ℓ} : Type ℓ → Type ℓ
Assoc V = List (String × V)

module _ {ℓ} {V : Type ℓ} where
  unfoldable pub lookup : String → Assoc V → Option V
  lookup key [] = none
  lookup key (entry ∷ rest) = if entry.0 == key then some entry.1 else lookup key rest

  -- `delete(m, key)`
  unfoldable pub erase : String → Assoc V → Assoc V
  erase key [] = []
  erase key (entry ∷ rest) =
      let kept = erase key rest in if entry.0 == key then kept else entry ∷ kept

  -- `m[key] = value`; a new key goes last.
  unfoldable pub insert : String → V → Assoc V → Assoc V
  insert key value [] = (key, value) ∷ []
  insert key value (entry ∷ rest) =
      if entry.0 == key then (key, value) ∷ rest else entry ∷ insert key value rest

  pub lookup-erase :
      (key other : String) (m : Assoc V)
      → lookup other (erase key m) ≡ (if key == other then none else lookup other m)
  unfolding lookup erase
  lookup-erase key other [] = ground arith
  lookup-erase key other (entry ∷ rest) = ground (
    arith,
    lookup-erase key other rest,
    eq_iff entry.0 key,
    eq_iff entry.0 other,
    eq_iff key other,
  )

  pub lookup-insert :
      (key other : String) (value : V) (m : Assoc V)
      → lookup other (insert key value m) ≡ (if key == other then some value else lookup other m)
  unfolding lookup insert
  lookup-insert key other value [] = ground arith
  lookup-insert key other value (entry ∷ rest) = ground (
    arith,
    lookup-insert key other value rest,
    eq_iff entry.0 key,
    eq_iff entry.0 other,
    eq_iff key other,
  )

  pub lookup-insert_self :
      (key : String) (value : V) (m : Assoc V) → lookup key (insert key value m) ≡ some value
  lookup-insert_self key value m = rw (lookup-insert key key value m, eq_refl)

  -- Every entry satisfies a predicate of its key and value.
  abbrev pub Each {κ} : (String → V → Type κ) → Assoc V → Type κ
  Each P [] = Unit
  Each P ((k, v) ∷ m) = P k v × Each P m

  -- No key is listed twice.
  abbrev pub IsMap : Assoc V → Type ℓ
  IsMap [] = Unit
  IsMap ((k, v) ∷ m) = (lookup k m ≡ none) × IsMap m

  pub Each-lookup {κ} :
      (P : String → V → Type κ) (k : String) {v : V} (m : Assoc V)
      → Each P m
      → lookup k m ≡ some v
      → P k v
  unfolding lookup
  Each-lookup P k {v} [] h e = cc
  Each-lookup P k {v} ((j, w) ∷ m) h e = ground (arith, eq_iff j k, Each-lookup P k {v = v} m h.1)

  pub Each-insert {κ} :
      (P : String → V → Type κ) (k : String) (v : V) (m : Assoc V)
      → Each P m
      → P k v
      → Each P (insert k v m)
  unfolding insert
  Each-insert P k v [] h p = (p, tt)
  Each-insert P k v ((j, w) ∷ m) h p = ground (arith, Each-insert P k v m h.1 p)

  pub Each-erase {κ} :
      (P : String → V → Type κ) (k : String) (m : Assoc V) → Each P m → Each P (erase k m)
  unfolding erase
  Each-erase P k [] h = tt
  Each-erase P k ((j, w) ∷ m) h = ground (arith, Each-erase P k m h.1)

  pub insert-IsMap : (k : String) (v : V) (m : Assoc V) → IsMap m → IsMap (insert k v m)
  unfolding insert
  insert-IsMap k v [] h = unfold lookup in (refl, tt)
  insert-IsMap k v ((j, w) ∷ m) h =
      ground (arith, eq_iff j k, eq_iff k j, insert-IsMap k v m h.1, lookup-insert k j v m)

  pub erase-IsMap : (k : String) (m : Assoc V) → IsMap m → IsMap (erase k m)
  unfolding erase
  erase-IsMap k [] h = tt
  erase-IsMap k ((j, w) ∷ m) h =
      ground (arith, eq_iff j k, eq_iff k j, erase-IsMap k m h.1, lookup-erase k j m)

  -- With each key once, what holds at every lookup holds of every entry.
  pub Each-of_lookup {κ} :
      (P : String → V → Type κ) (m : Assoc V)
      → IsMap m
      → ((k : String) (v : V) → lookup k m ≡ some v → P k v)
      → Each P m
  unfolding lookup
  Each-of_lookup P [] u h = tt
  Each-of_lookup P ((k, v) ∷ m) u h = (
    h k v (rw eq_refl),
    Each-of_lookup P m u.1 (λ i w e. h i w (ground (arith, u.0, eq_iff k i))),
  )
