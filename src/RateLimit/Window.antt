-- ===== src/RateLimit/Window.antt =====
-- How many requests one window lets through.
use aurora_old.Base.{
  ℕ, suc, ◌+◌, ◌-◌, ◌≤◌, ◌^◌, String, Bool, true, false, none, some, List, [], ◌∷◌, ◌≢◌, ==_ne,
  length, All, ◌≡◌, refl, arith,
}
use Prim.Native.Nat.{min}
use aurora_old.Base.Int.{
  ℤ, pos, ◌+ℤ◌, ◌-ℤ◌, ◌≤ℤ◌, ◌<ℤ◌, int64, sub_time, int64_id, eq_of_parts, max_int64, -ℤ_parts,
  +ℤ_parts,
}
use aurora_old.Base.Assoc.{lookup, lookup-insert, lookup-insert_self}
use aurora_old.RateLimit.Limiter.{
  Rule, Bucket, Buckets, bucket_key, fresh_bucket, use_bucket, allow,
}

abbrev one_if : Bool → ℕ
one_if true = 1
one_if false = 0

-- How many of the requests at these times are let through.
abbrev pub count_allowed : String → Rule → List ℤ → Buckets → ℕ
count_allowed key rule [] m = 0
count_allowed key rule (now ∷ later) m =
    let (m', v) = allow now key rule m in one_if v.allowed + count_allowed key rule later m'

-- A time lies in the window that begins at `start`.
abbrev pub InWindow : ℤ → ℤ → ℤ → Type 0
InWindow start window now = (start ≤ℤ now) × (now <ℤ start +ℤ window)

unfold_sub :
    (now start window : ℤ)
    → window ≤ℤ max_int64
    → InWindow start window now
    → (pos 0 ≤ℤ sub_time now start) × (sub_time now start <ℤ window)
unfolding sub_time
unfold_sub now start window w h = ground (arith, -ℤ_parts now start, +ℤ_parts start window)

use_bucket-window :
    (now : ℤ) (rule : Rule) (b : Bucket) {k : ℕ}
    → b.window ≤ℤ max_int64
    → b.tokens ≡ pos k
    → InWindow b.last_refill_at b.window now
    → k ≤ 2 ^ 63 - 1
    → let (b', v) = use_bucket now rule b in
      (b'.tokens ≡ pos (k - 1))
      × (b'.last_refill_at ≡ b.last_refill_at)
      × (b'.window ≡ b.window)
      × (one_if v.allowed ≡ min 1 k)
unfolding use_bucket int64 ◌-ℤ◌
use_bucket-window now rule b w e h k = ground (arith, unfold_sub now b.last_refill_at b.window w h)

-- One request of the window on a bucket that is there.
allow_found :
    (now : ℤ) (key : String) (rule : Rule) (m : Buckets) (b : Bucket)
    → lookup (bucket_key rule.key_prefix key) m ≡ some b
    → ((allow now key rule m).1 ≡ (use_bucket now rule b).1)
      × (lookup (bucket_key rule.key_prefix key) (allow now key rule m).0
          ≡ some (use_bucket now rule b).0)
unfolding allow
allow_found now key rule m b e = rw e (refl, lookup-insert_self _ _ m)

allow_fresh :
    (now : ℤ) (key : String) (rule : Rule) (m : Buckets)
    → lookup (bucket_key rule.key_prefix key) m ≡ none
    → let b = fresh_bucket now rule in
      ((allow now key rule m).1 ≡ (use_bucket now rule b).1)
      × (lookup (bucket_key rule.key_prefix key) (allow now key rule m).0
          ≡ some (use_bucket now rule b).0)
unfolding allow
allow_fresh now key rule m e = rw e (refl, lookup-insert_self _ _ m)

abbrev Counts : String → Rule → List ℤ → Buckets → ℕ → Type 0
Counts key rule ts m k = count_allowed key rule ts m ≡ min (length ts) k

All-InWindow :
    {s s' w w' : ℤ} (ts : List ℤ)
    → s' ≡ s
    → w' ≡ w
    → All (InWindow s w) ts
    → All (InWindow s' w') ts
All-InWindow [] e f a = tt
All-InWindow (t ∷ ts) e f a = (ground arith, All-InWindow ts e f a.1)

count_from :
    (key : String) (rule : Rule) (ts : List ℤ) (m : Buckets) (b : Bucket) (k : ℕ)
    → lookup (bucket_key rule.key_prefix key) m ≡ some b
    → b.window ≤ℤ max_int64
    → b.tokens ≡ pos k
    → k ≤ 2 ^ 63 - 1
    → All (InWindow b.last_refill_at b.window) ts
    → Counts key rule ts m k
count_from key rule [] m b k e w t h a = omega arith
count_from key rule (now ∷ ts) m b k e w t h a =
    let (v, found) = allow_found now key rule m b e in
    let b' = (use_bucket now rule b).0 in
    let (t', l', w', one) = use_bucket-window now rule b {k = k} w t a.0 h in
    let rest =
      count_from key rule ts (allow now key rule m).0 b' (k - 1) found (ground arith) t'
        (omega arith) (All-InWindow ts l' w' a.1) in
    rw v (omega (arith, one, rest))

fresh_bucket-window : (now : ℤ) (rule : Rule) → pos 0 <ℤ rule.window → InWindow now rule.window now
fresh_bucket-window now rule h = (omega arith, omega (arith, +ℤ_parts now rule.window))

-- A caller without a bucket that sends requests within one window has as many of them let through as
-- the rule's limit allows, and all of them if they are fewer; the limit is below 2^63 and the window
-- longer than 0.
pub count_allowed-window :
    (key : String) (rule : Rule) (limit : ℕ) (start : ℤ) (ts : List ℤ) (m : Buckets)
    → lookup (bucket_key rule.key_prefix key) m ≡ none
    → rule.limit ≡ pos limit
    → limit ≤ 2 ^ 63 - 1
    → pos 0 <ℤ rule.window
    → rule.window ≤ℤ max_int64
    → All (InWindow start rule.window) ts
    → count_allowed key rule (start ∷ ts) m ≡ min (suc (length ts)) limit
unfolding fresh_bucket
count_allowed-window key rule limit start ts m e l h p w a =
    let (v, found) = allow_fresh start key rule m e in
    let b = fresh_bucket start rule in
    let b' = (use_bucket start rule b).0 in
    let (t', l', w', one) =
      use_bucket-window start rule b {k = limit} w l (fresh_bucket-window start rule p) h in
    let rest =
      count_from key rule ts (allow start key rule m).0 b' (limit - 1) found (ground arith) t'
        (omega arith) (All-InWindow ts l' w' a) in
    rw v (omega (arith, one, rest))

-- A request changes no bucket but its own.
allow-lookup_ne :
    (now : ℤ) (key other : String) (rule : Rule) (m : Buckets)
    → bucket_key rule.key_prefix key ≢ other
    → lookup other (allow now key rule m).0 ≡ lookup other m
unfolding allow
allow-lookup_ne now key other rule m h = rw (lookup-insert, ==_ne _ _ h)

sub_time-le : (t u : ℤ) → sub_time t u ≤ℤ max_int64
unfolding sub_time
sub_time-le t u = ground arith

late_reset : (w e : ℤ) → pos 0 ≤ℤ w → w ≤ℤ e → e ≤ℤ max_int64 → int64 (w -ℤ e) ≤ℤ pos 0
unfolding int64 ◌-ℤ◌
late_reset w e h k l = ground arith

use_refilled :
    (now : ℤ) (rule : Rule) (b : Bucket) {k : ℕ}
    → b.max_tokens ≡ pos (suc k)
    → suc k ≤ 2 ^ 63 - 1
    → b.window ≤ℤ sub_time now b.last_refill_at
    → let v = (use_bucket now rule b).1 in
      (v.allowed ≡ true)
      × (v.remaining ≡ pos k)
      × (v.reset_after ≡ int64 (b.window -ℤ sub_time now b.last_refill_at))
unfolding use_bucket
use_refilled now rule b {k} t h p = ground (
  arith,
  int64_id (b.max_tokens -ℤ pos 1),
  -ℤ_parts b.max_tokens (pos 1),
  eq_of_parts (b.max_tokens -ℤ pos 1) (pos k),
)

-- A bucket that has room for a token and whose window has passed is filled again, so the request is let through with one token
-- less than the most it holds; but the time to the next reset that is reported counts from the old
-- window, and is zero or negative.
allow-refilled :
    (now : ℤ) (key : String) (rule : Rule) (m : Buckets) (b : Bucket) {k : ℕ}
    → lookup (bucket_key rule.key_prefix key) m ≡ some b
    → b.max_tokens ≡ pos (suc k)
    → suc k ≤ 2 ^ 63 - 1
    → pos 0 ≤ℤ b.window
    → b.window ≤ℤ sub_time now b.last_refill_at
    → let v = (allow now key rule m).1 in
      (v.allowed ≡ true) × (v.remaining ≡ pos k) × (v.reset_after ≤ℤ pos 0)
allow-refilled now key rule m b {k} e t h w p =
    let (v, _) = allow_found now key rule m b e in
    let (a, r, z) = use_refilled now rule b {k = k} t h p in
    rw v (a, r, rw z (late_reset b.window (sub_time now b.last_refill_at) w p (sub_time-le _ _)))
