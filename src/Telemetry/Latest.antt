-- ===== src/Telemetry/Latest.antt =====
-- The ring shows the latest samples: what QueryRange finds after any pushes.
use aurora_old.Base.{
  ℕ, zero, suc, ◌+◌, ◌-◌, ◌%◌, ◌≤◌, ltb, eqb, String, Bool, false, Option, none, some, List, [],
  ◌∷◌, if◌then◌else◌, get_elem?, set, length, length-set, length-replicate, get_elem?-set, take,
  keep, ◌≡◌, refl, ap, ◌∙◌, arith,
}
use Prim.Native.Nat.{min}
use native.Mathlib.Nat.{mod-lt, mod-eq_of_lt, mod-eq-sub-mod}
use aurora_old.Base.Int.{ℤ}
use aurora_old.Telemetry.Ring.{
  MetricSample, RingBuffer, capacity_for, new_ring, store, push_batch, sample_at, in_series,
  matching_from, matching,
}

mod_wrap : (a c : ℕ) → c ≤ a → suc (a - c) ≤ c → a % c ≡ a - c
mod_wrap a c h k = mod-eq-sub-mod h ∙ mod-eq_of_lt k

-- The remainder of a number below twice the capacity.
mod_cases : (a c : ℕ) → suc a ≤ c + c → a % c ≡ (if ltb a c then a else a - c)
mod_cases a c h = ground (arith, mod_wrap a c, mod-eq_of_lt {n = a} {m = c})

-- The place before the next one is the one just written.
next_zero : (h c : ℕ) → suc h ≤ c → ((h + 1) % c + c - 1 - 0) % c ≡ h
next_zero h c p =
    let e = mod_cases (h + 1) c (omega arith) in
    let f = mod_cases ((h + 1) % c + c - 1 - 0) c (ground arith) in ground arith

-- The places before it are the earlier ones, and not the one just written.
next_suc :
    (h c j : ℕ)
    → suc h ≤ c
    → suc (suc j) ≤ c
    → (((h + 1) % c + c - 1 - suc j) % c ≡ (h + c - 1 - j) % c)
      × (eqb h ((h + c - 1 - j) % c) ≡ false)
next_suc h c j p q =
    let e = mod_cases (h + 1) c (omega arith) in
    let f = mod_cases ((h + 1) % c + c - 1 - suc j) c (ground arith) in
    let g = mod_cases (h + c - 1 - j) c (ground arith) in ground arith

back_in : (h c j : ℕ) → suc h ≤ c → suc ((h + c - 1 - j) % c) ≤ c
back_in h c j p = mod-lt (h + c - 1 - j) {m = c} (omega arith)

take-nil {ℓ} : {A : Type ℓ} (n : ℕ) → take {A = A} n [] ≡ []
take-nil zero = refl
take-nil (suc n) = refl

-- A list has no more to take than its length.
take-min {ℓ} : {A : Type ℓ} (n : ℕ) (l : List A) → take (min (length l) n) l ≡ take n l
take-min zero l = let e : min (length l) 0 ≡ 0 = omega arith in ap (λ k. take k l) e
take-min (suc n) [] = let e : min 0 (suc n) ≡ 0 = omega arith in ap (λ k. take k []) e
take-min (suc n) (x ∷ l) =
    let e : min (suc (length l)) (suc n) ≡ suc (min (length l) n) = omega arith in
    ap (λ k. take k (x ∷ l)) e ∙ ap (λ t. x ∷ t) (take-min n l)

module _ {Float64 : Type 0} where
  -- The samples of these calls that are not nil, the latest first.
  abbrev pub latest :
      List (Option (MetricSample Float64))
      → List (MetricSample Float64)
      → List (MetricSample Float64)
  latest [] seen = seen
  latest (none ∷ rest) seen = latest rest seen
  latest (some s ∷ rest) seen = latest rest (s ∷ seen)

  -- The ring shows the samples of a list, the latest first, as far as it has room.
  record Shows (r : RingBuffer Float64) (l : List (MetricSample Float64)) : Type 0 where
    room : suc 0 ≤ r.capacity
    full_length : length r.samples ≡ r.capacity
    head_in : suc r.head ≤ r.capacity
    sized : r.size ≡ min (length l) r.capacity
    shown : (i : ℕ) → suc i ≤ r.size → sample_at r i ≡ get_elem? l i

  store-Shows :
      (s : MetricSample Float64) (r : RingBuffer Float64) (l : List (MetricSample Float64))
      → Shows r l
      → Shows (store s r) (s ∷ l)
  unfolding store sample_at
  store-Shows s r l h = record {
    room = h.room;
    full_length = length-set r.samples r.head (some s) ∙ h.full_length;
    head_in = ground (arith, mod_cases (r.head + 1) r.capacity, h.head_in, h.room);
    sized = ground (arith, h.sized);
    shown = λ i. shown_after i;
  }
    where
      written :
          (k : ℕ)
          → get_elem? (set r.samples r.head (some s)) k
            ≡ (if eqb r.head k then some (some s) else get_elem? r.samples k)
      written k =
          get_elem?-set r.samples r.head k (some s) (omega (arith, h.full_length, h.head_in))

      shown_after :
          (i : ℕ) → suc i ≤ (store s r).size → sample_at (store s r) i ≡ get_elem? (s ∷ l) i
      shown_after zero q = rw (next_zero r.head r.capacity h.head_in, written r.head) (ground arith)
      shown_after (suc j) q =
          let (e, f) = next_suc r.head r.capacity j h.head_in (ground (arith, h.sized)) in
          rw (e, written _, f) (h.shown j (ground (arith, h.sized)))

  new_ring-Shows : (c : ℤ) → Shows (new_ring c) []
  unfolding new_ring capacity_for
  new_ring-Shows c = record {
    room = ground arith;
    full_length = length-replicate (capacity_for c) none;
    head_in = ground arith;
    sized = ground arith;
    shown = λ i h. absurd_place h;
  }
    where
      absurd_place : {A : Type 0} {i : ℕ} → suc i ≤ 0 → A
      absurd_place h = ground arith

  push_batch-Shows :
      (ss : List (Option (MetricSample Float64))) (r : RingBuffer Float64)
      (l : List (MetricSample Float64))
      → Shows r l
      → Shows (push_batch ss r) (latest ss l)
  unfolding push_batch
  push_batch-Shows [] r l h = h
  push_batch-Shows (none ∷ ss) r l h = push_batch-Shows ss r l h
  push_batch-Shows (some s ∷ ss) r l h =
      push_batch-Shows ss (store s r) (s ∷ l) (store-Shows s r l h)

  -- Any calls of Push and PushBatch, in order: a push is a batch of one.
  abbrev pub push_all :
      List (List (Option (MetricSample Float64))) → RingBuffer Float64 → RingBuffer Float64
  push_all [] r = r
  push_all (ss ∷ more) r = push_all more (push_batch ss r)

  abbrev pub latest_all :
      List (List (Option (MetricSample Float64)))
      → List (MetricSample Float64)
      → List (MetricSample Float64)
  latest_all [] l = l
  latest_all (ss ∷ more) l = latest_all more (latest ss l)

  push_all-Shows :
      (bs : List (List (Option (MetricSample Float64)))) (r : RingBuffer Float64)
      (l : List (MetricSample Float64))
      → Shows r l
      → Shows (push_all bs r) (latest_all bs l)
  push_all-Shows [] r l h = h
  push_all-Shows (ss ∷ bs) r l h =
      push_all-Shows bs (push_batch ss r) (latest ss l) (push_batch-Shows ss r l h)

  later_places :
      (r : RingBuffer Float64) (i n : ℕ) (l t : List (MetricSample Float64))
      → ((j : ℕ) → suc j ≤ suc n → sample_at r (i + j) ≡ get_elem? l j)
      → ((j : ℕ) → get_elem? l (suc j) ≡ get_elem? t j)
      → (j : ℕ) → suc j ≤ n
      → sample_at r (suc i + j) ≡ get_elem? t j
  later_places r i n l t h e j p = ap (sample_at r) (omega arith) ∙ h (suc j) (omega arith) ∙ e j

  first_place :
      (r : RingBuffer Float64) (i n : ℕ) (l : List (MetricSample Float64))
      → ((j : ℕ) → suc j ≤ suc n → sample_at r (i + j) ≡ get_elem? l j)
      → sample_at r i ≡ get_elem? l 0
  first_place r i n l h = ap (sample_at r) (omega arith) ∙ h 0 (omega arith)

  matching_from-keep :
      (fits : MetricSample Float64 → Bool) (r : RingBuffer Float64) (i n : ℕ)
      (l : List (MetricSample Float64))
      → ((j : ℕ) → suc j ≤ n → sample_at r (i + j) ≡ get_elem? l j)
      → matching_from fits r i n ≡ keep fits (take n l)
  unfolding matching_from
  matching_from-keep fits r i zero l h = refl
  matching_from-keep fits r i (suc n) [] h =
      let rest = matching_from-keep fits r (suc i) n [] (later_places r i n [] [] h (λ j. refl)) in
      rw (matching_from, first_place r i n [] h) (rest ∙ ap (keep fits) (take-nil n))
  matching_from-keep fits r i (suc n) (s ∷ l) h =
      let rest =
        matching_from-keep fits r (suc i) n l (later_places r i n (s ∷ l) l h (λ j. refl)) in
      rw (matching_from, first_place r i n (s ∷ l) h, rest) refl

  push_batch-capacity :
      (ss : List (Option (MetricSample Float64))) (r : RingBuffer Float64)
      → (push_batch ss r).capacity ≡ r.capacity
  unfolding push_batch store
  push_batch-capacity [] r = refl
  push_batch-capacity (none ∷ ss) r = push_batch-capacity ss r
  push_batch-capacity (some s ∷ ss) r = push_batch-capacity ss (store s r)

  push_all-capacity :
      (bs : List (List (Option (MetricSample Float64)))) (r : RingBuffer Float64)
      → (push_all bs r).capacity ≡ r.capacity
  push_all-capacity [] r = refl
  push_all-capacity (ss ∷ bs) r = push_all-capacity bs (push_batch ss r) ∙ push_batch-capacity ss r

  -- After any pushes, in batches or alone, into a new ring, the samples that a query finds for its
  -- series and its times are those among the latest pushed ones, the latest first, of which the
  -- ring shows as many as its capacity; nil samples count for nothing.
  pub matching-latest :
      (c : ℤ) (bs : List (List (Option (MetricSample Float64)))) (res_type res_id name : String)
      (from to : ℤ)
      → matching res_type res_id name from to (push_all bs (new_ring c))
        ≡ keep (in_series res_type res_id name from to) (take (capacity_for c) (latest_all bs []))
  unfolding matching new_ring
  matching-latest c bs res_type res_id name from to =
      let r = push_all bs (new_ring c) in
      let l = latest_all bs [] in
      let fits = in_series res_type res_id name from to in
      let h = push_all-Shows bs (new_ring c) [] (new_ring-Shows c) in
      matching_from-keep fits r 0 r.size l (λ j p. ap (sample_at r) (omega arith) ∙ h.shown j p)
      ∙ ap (λ n. keep fits (take n l)) h.sized
      ∙ ap (keep fits) (take-min r.capacity l)
      ∙ ap (λ n. keep fits (take n l)) (push_all-capacity bs (new_ring c))
