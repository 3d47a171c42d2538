-- ===== src/RateLimit/Limiter.antt =====
-- The token buckets and the service before them. `now` is the value of `time.Now()`; the mutex makes
-- each call atomic. No call returns an error.
use Prim.Native.String.{◌++◌}
use aurora_old.Base.{String, Bool, true, false, Option, none, some, List, [], ◌∷◌, if◌then◌else◌}
use aurora_old.Base.Int.{ℤ, pos, ◌-ℤ◌, ltb_ℤ, leb_ℤ, int64, sub_time}
use aurora_old.Base.Assoc.{Assoc, lookup, insert, erase}

pub record Rule : Type 0 where
  pub name : String
  pub limit : ℤ
  pub window : ℤ
  pub key_prefix : String

pub record Verdict : Type 0 where
  pub allowed : Bool
  pub limit : ℤ
  pub remaining : ℤ
  pub reset_after : ℤ

pub record Bucket : Type 0 where
  pub tokens : ℤ
  pub max_tokens : ℤ
  pub last_refill_at : ℤ
  pub window : ℤ

abbrev pub Buckets : Type 0
Buckets = Assoc Bucket

-- `fmt.Sprintf("%s:%s", …)`
abbrev pub bucket_key : String → String → String
bucket_key prefix key = prefix ++ ":" ++ key

unfoldable pub fresh_bucket : ℤ → Rule → Bucket
fresh_bucket now rule = record {
  tokens = rule.limit;
  max_tokens = rule.limit;
  last_refill_at = now;
  window = rule.window;
}

abbrev pub found_or_fresh : ℤ → Rule → Option Bucket → Bucket
found_or_fresh now rule none = fresh_bucket now rule
found_or_fresh now rule (some b) = b

unfoldable pub refill : ℤ → Bucket → Bucket
refill now b =
    if leb_ℤ b.window (sub_time now b.last_refill_at)
    then record b { tokens = b.max_tokens; last_refill_at = now }
    else b

-- `elapsed` is the one from before the refill.
unfoldable pub spend : Rule → ℤ → Bucket → Bucket × Verdict
spend rule elapsed b =
    if ltb_ℤ (pos 0) b.tokens
    then (let left = int64 (b.tokens -ℤ pos 1) in
        (
          record b { tokens = left },
          record {
            allowed = true;
            limit = rule.limit;
            remaining = left;
            reset_after = int64 (b.window -ℤ elapsed);
          },
        ))
    else (
      b,
      record {
        allowed = false;
        limit = rule.limit;
        remaining = pos 0;
        reset_after = int64 (b.window -ℤ elapsed);
      },
    )

unfoldable pub use_bucket : ℤ → Rule → Bucket → Bucket × Verdict
unfolding refill spend
use_bucket now rule b = spend rule (sub_time now b.last_refill_at) (refill now b)

unfoldable pub allow : ℤ → String → Rule → Buckets → Buckets × Verdict
allow now key rule m =
    let name = bucket_key rule.key_prefix key in
    let (b, v) = use_bucket now rule (found_or_fresh now rule (lookup name m)) in
    (insert name b m, v)

unfoldable pub reset : String → String → Buckets → Buckets
reset key prefix m = erase (bucket_key prefix key) m

-- The service, whose limiter may be nil: `none` stands for no limiter.
abbrev open_verdict : Rule → Verdict
open_verdict rule = record {
  allowed = true;
  limit = rule.limit;
  remaining = rule.limit;
  reset_after = pos 0;
}

abbrev check_with : ℤ → String → Rule → Option Buckets → Option Buckets × Verdict
check_with now key rule none = (none, open_verdict rule)
check_with now key rule (some m) = let (m', v) = allow now key rule m in (some m', v)

unfoldable pub check_limit : ℤ → String → Rule → Option Buckets → Option Buckets × Verdict
check_limit now key rule l = check_with now key rule l

unfoldable pub reset_limit : String → String → Option Buckets → Option Buckets
reset_limit key prefix none = none
reset_limit key prefix (some m) = some (reset key prefix m)

abbrev minute : ℤ
minute = pos 60_000_000_000

-- The rules of internal/app/ratelimit/service.go.
abbrev pub rules : List Rule
rules =
    record { name = "auth_attempts"; limit = pos 10; window = minute; key_prefix = "auth" }
    ∷ record { name = "token_refresh"; limit = pos 30; window = minute; key_prefix = "refresh" }
    ∷ record {
      name = "instance_create";
      limit = pos 15;
      window = minute;
      key_prefix = "inst_create";
    }
    ∷ record { name = "instance_delete"; limit = pos 20; window = minute; key_prefix = "inst_del" }
    ∷ record { name = "console_session"; limit = pos 10; window = minute; key_prefix = "console" }
    ∷ record { name = "webhook_create"; limit = pos 10; window = minute; key_prefix = "wh_create" }
    ∷ record { name = "admin_mutations"; limit = pos 60; window = minute; key_prefix = "admin" }
    ∷ []
