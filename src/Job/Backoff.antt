-- ===== src/Job/Backoff.antt =====
-- internal/app/job/engine.go: `calculateBackoff`. `rand.Float64()` is `sample / 2^53`, as math/rand
-- draws it, and the product with a float64 is computed exactly; `math.Round` rounds a half up.
use aurora_old.Base.{ℕ, zero, suc, ◌+◌, ◌*◌, ◌/◌, ◌^◌, List, [], ◌∷◌, if◌then◌else◌}
use aurora_old.Base.Int.{ℤ, pos, pos_part, ◌-ℤ◌, ltb_ℤ, leb_ℤ, int64}

abbrev pub second : ℕ
second = 1_000_000_000

abbrev pub base_delays : List ℕ
base_delays = 5 * second ∷ 30 * second ∷ 2 * 60 * second ∷ 10 * 60 * second ∷ 30 * 60 * second ∷ []

abbrev pub nth : List ℕ → ℕ → ℕ
nth [] i = 0
nth (x ∷ xs) zero = x
nth (x ∷ xs) (suc i) = nth xs i

unfoldable pub delay_index : ℤ → ℕ
delay_index attempt =
    let idx = int64 (attempt -ℤ pos 1) in
    if ltb_ℤ idx (pos 0) then 0 else if leb_ℤ (pos 5) idx then 4 else pos_part idx

-- `base * (0.8 + 0.4 * sample / 2^53)`, rounded.
unfoldable pub jittered : ℕ → ℕ → ℕ
jittered sample base = (2 * (base * (4 * 2 ^ 53 + 2 * sample)) + 5 * 2 ^ 53) / (2 * (5 * 2 ^ 53))

unfoldable pub calculate_backoff : ℕ → ℤ → ℤ
calculate_backoff sample attempt = pos (jittered sample (nth base_delays (delay_index attempt)))
