-- ===== src/Base/Int.antt =====
-- Go's signed integers. `ℤ` is unbounded; `int64` is the wrap-around of a 64-bit result.
-- A `time.Time` is the number of nanoseconds since the zero time, a `time.Duration` one of
-- nanoseconds, so both are integers too.
use Prim.Native.Nat.{ℕ, suc, ◌+◌, ◌-◌, ◌/◌, ◌%◌, ◌^◌, ◌≤◌}
use mathlib.Core.Path.{◌≡◌}
use mathlib.Core.Bool.{Bool}
use native.Mathlib.Omega.{arith}
use aurora_old.Base.Tests.{ltb, leb, eqb, if◌then◌else◌}

-- `negsuc n` is -(n + 1).
pub data ℤ : Type 0 where
  pos : ℕ → ℤ
  negsuc : ℕ → ℤ

abbrev pub pos_part : ℤ → ℕ
pos_part (pos n) = n
pos_part (negsuc n) = 0

abbrev pub neg_part : ℤ → ℕ
neg_part (pos n) = 0
neg_part (negsuc n) = suc n

-- a - b, as an integer.
abbrev pub sub_ℕ : ℕ → ℕ → ℤ
sub_ℕ a b = if leb b a then pos (a - b) else negsuc (b - a - 1)

infixl 65 ◌+ℤ◌ ◌-ℤ◌
infix 50 ◌≤ℤ◌ ◌<ℤ◌
unfoldable pub ◌+ℤ◌ : ℤ → ℤ → ℤ
a +ℤ b = sub_ℕ (pos_part a + pos_part b) (neg_part a + neg_part b)

unfoldable pub ◌-ℤ◌ : ℤ → ℤ → ℤ
a -ℤ b = sub_ℕ (pos_part a + neg_part b) (neg_part a + pos_part b)

abbrev pub ◌≤ℤ◌ : ℤ → ℤ → Type 0
a ≤ℤ b = pos_part a + neg_part b ≤ pos_part b + neg_part a

abbrev pub ◌<ℤ◌ : ℤ → ℤ → Type 0
a <ℤ b = suc (pos_part a + neg_part b) ≤ pos_part b + neg_part a

abbrev pub ltb_ℤ : ℤ → ℤ → Bool
ltb_ℤ a b = ltb (pos_part a + neg_part b) (pos_part b + neg_part a)

abbrev pub leb_ℤ : ℤ → ℤ → Bool
leb_ℤ a b = leb (pos_part a + neg_part b) (pos_part b + neg_part a)

abbrev pub eqb_ℤ : ℤ → ℤ → Bool
eqb_ℤ a b = eqb (pos_part a + neg_part b) (pos_part b + neg_part a)

abbrev pub max_int64 : ℤ
max_int64 = pos (2 ^ 63 - 1)

abbrev pub min_int64 : ℤ
min_int64 = negsuc (2 ^ 63 - 1)

-- The two's complement reading of the low 64 bits: -(n + 1) has the bits 2^64 - 1 - n % 2^64.
bits64 : ℤ → ℕ
bits64 (pos n) = n % 2 ^ 64
bits64 (negsuc n) = 2 ^ 64 - 1 - n % 2 ^ 64

unfoldable pub int64 : ℤ → ℤ
unfolding bits64
int64 z = if ltb (bits64 z) (2 ^ 63) then pos (bits64 z) else negsuc (2 ^ 64 - 1 - bits64 z)

abbrev pub IsInt64 : ℤ → Type 0
IsInt64 z = (min_int64 ≤ℤ z) × (z ≤ℤ max_int64)

-- With these the operations can stay shut.
pub +ℤ_parts :
    (a b : ℤ)
    → pos_part (a +ℤ b) + neg_part a + neg_part b ≡ neg_part (a +ℤ b) + pos_part a + pos_part b
unfolding ◌+ℤ◌
+ℤ_parts a b = ground arith

pub -ℤ_parts :
    (a b : ℤ)
    → pos_part (a -ℤ b) + neg_part a + pos_part b ≡ neg_part (a -ℤ b) + pos_part a + neg_part b
unfolding ◌-ℤ◌
-ℤ_parts a b = ground arith

pub eq_of_parts : (a b : ℤ) → pos_part a + neg_part b ≡ pos_part b + neg_part a → a ≡ b
eq_of_parts a b h = ground arith

pub ruleset int_laws = (arith, +ℤ_parts, -ℤ_parts, eq_of_parts)

-- A value in range is left alone.
pub int64_id : (z : ℤ) → IsInt64 z → int64 z ≡ z
unfolding int64
int64_id (pos n) h = ground arith
int64_id (negsuc n) h = ground arith

-- Every result is in range.
pub int64-IsInt64 : (z : ℤ) → IsInt64 (int64 z)
unfolding int64
int64-IsInt64 (pos n) = ground arith
int64-IsInt64 (negsuc n) = ground arith

-- `t.Sub(u)` saturates at the largest and the smallest duration.
unfoldable pub sub_time : ℤ → ℤ → ℤ
sub_time t u =
    if ltb_ℤ max_int64 (t -ℤ u)
    then max_int64
    else if ltb_ℤ (t -ℤ u) min_int64
    then min_int64
    else t -ℤ u

pub int64-suc : (n : ℕ) → suc n ≤ 2 ^ 63 - 1 → int64 (pos n +ℤ pos 1) ≡ pos (suc n)
unfolding int64 ◌+ℤ◌
int64-suc n h = ground arith

-- The wrap-around only ever lowers a result that is not negative.
pub int64-le : (z : ℤ) → pos 0 ≤ℤ z → int64 z ≤ℤ z
unfolding int64
int64-le (pos n) h = ground arith
int64-le (negsuc n) h = ground arith

pub sub-le : (hi lo l : ℤ) → lo ≤ℤ hi → hi ≤ℤ lo +ℤ l → pos (pos_part (hi -ℤ lo)) ≤ℤ l
unfolding ◌+ℤ◌ ◌-ℤ◌
sub-le hi lo l h k = ground arith

-- `a / d` for d > 0, truncated towards zero.
unfoldable pub quot : ℤ → ℕ → ℤ
quot (pos n) d = pos (n / d)
quot (negsuc n) d = sub_ℕ 0 (suc n / d)
