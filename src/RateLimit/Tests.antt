-- ===== src/RateLimit/Tests.antt =====
-- The limiter at concrete requests.
use aurora_old.Base.{[], ◌∷◌, ◌≡◌, refl, arith}
use aurora_old.Base.Int.{pos, ◌+ℤ◌}
use aurora_old.Base.Assoc.{lookup}
use aurora_old.RateLimit.Limiter.{Rule, Bucket, Buckets}
use aurora_old.RateLimit.Window.{count_allowed, count_allowed-window}

abbrev two_a_minute : Rule
two_a_minute = record { name = "t"; limit = pos 2; window = pos 60; key_prefix = "auth" }

abbrev spent : Bucket
spent = record { tokens = pos 0; max_tokens = pos 2; last_refill_at = pos 5; window = pos 60 }

abbrev spent_alone : Buckets
spent_alone = ("auth:alice", spent) ∷ []

count_allowed-window_example :
    count_allowed "alice" two_a_minute (pos 5 ∷ pos 6 ∷ pos 7 ∷ pos 8 ∷ []) [] ≡ 2
unfolding lookup ◌+ℤ◌
count_allowed-window_example =
    count_allowed-window "alice" two_a_minute 2 (pos 5) (pos 6 ∷ pos 7 ∷ pos 8 ∷ []) [] refl refl
      (omega arith) (omega arith) (omega arith) (omega arith)
