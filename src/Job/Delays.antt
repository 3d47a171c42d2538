-- ===== src/Job/Delays.antt =====
-- The delay before a retry: within a fifth of its step, and longer with each of the first attempts.
use aurora_old.Base.{ℕ, zero, suc, ◌+◌, ◌*◌, ◌^◌, ◌≤◌, ◌<◌, arith}
use aurora_old.Base.Int.{ℤ, pos, ◌≤ℤ◌, ◌<ℤ◌, ◌-ℤ◌, int64}
use aurora_old.Job.Backoff.{second, nth, base_delays, delay_index, jittered, calculate_backoff}

jittered_bounds :
    (sample base : ℕ)
    → sample < 2 ^ 53
    → (4 * base ≤ 5 * jittered sample base + 2) × (5 * jittered sample base ≤ 6 * base + 3)
unfolding jittered
jittered_bounds sample base h = grind arith

jittered_grows :
    (s t b b' : ℕ) → s < 2 ^ 53 → t < 2 ^ 53 → 6 * b + 6 ≤ 4 * b' → jittered s b < jittered t b'
jittered_grows s t b b' h k g = omega (arith, jittered_bounds s b h, jittered_bounds t b' k)

delay_index-le : (attempt : ℤ) → delay_index attempt ≤ 4
unfolding delay_index
delay_index-le attempt = ground arith

base_bounds :
    (i : ℕ) → i ≤ 4 → (5 * second ≤ nth base_delays i) × (nth base_delays i ≤ 30 * 60 * second)
base_bounds zero h = omega arith
base_bounds (suc zero) h = omega arith
base_bounds (suc (suc zero)) h = omega arith
base_bounds (suc (suc (suc zero))) h = omega arith
base_bounds (suc (suc (suc (suc zero)))) h = omega arith
base_bounds (suc (suc (suc (suc (suc i))))) h = absurd (omega arith)

-- The delay is between 4 seconds and 36 minutes, for every attempt and every draw.
pub backoff_bounds :
    (sample : ℕ) (attempt : ℤ)
    → sample < 2 ^ 53
    → (pos (4 * second) ≤ℤ calculate_backoff sample attempt)
      × (calculate_backoff sample attempt ≤ℤ pos (36 * 60 * second))
unfolding calculate_backoff
backoff_bounds sample attempt h =
    let i = delay_index attempt in
    let base = nth base_delays i in
    let at_least = jittered_bounds sample base h in
    let steps = base_bounds i (delay_index-le attempt) in (omega arith, omega arith)

-- Each of the first five attempts waits longer than the one before, whatever is drawn.
backoff_grows :
    (n s t : ℕ)
    → s < 2 ^ 53
    → t < 2 ^ 53
    → n < 4
    → calculate_backoff s (pos (suc n)) <ℤ calculate_backoff t (pos (suc (suc n)))
unfolding calculate_backoff delay_index int64 ◌-ℤ◌
backoff_grows zero s t h k g = omega (arith, jittered_grows s t (5 * second) (30 * second) h k)
backoff_grows (suc zero) s t h k g =
    omega (arith, jittered_grows s t (30 * second) (2 * 60 * second) h k)
backoff_grows (suc (suc zero)) s t h k g =
    omega (arith, jittered_grows s t (2 * 60 * second) (10 * 60 * second) h k)
backoff_grows (suc (suc (suc zero))) s t h k g =
    omega (arith, jittered_grows s t (10 * 60 * second) (30 * 60 * second) h k)
backoff_grows (suc (suc (suc (suc n)))) s t h k g = absurd (omega arith)
