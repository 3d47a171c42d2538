-- ===== src/Telemetry/Ring.antt =====
-- internal/infra/telemetry/ringbuffer.go: the ring of samples, Push, PushBatch and the search of
-- QueryRange for the samples of its series. `none` is a nil pointer. `head` and `size` stay at most
-- the capacity, so that no `int` here overflows and no index is out of range. A float64 is an argument.
use aurora_old.Base.{
  ℕ, zero, suc, ◌+◌, ◌-◌, ◌%◌, ltb, String, ◌==◌, Bool, not, ◌&&◌, ◌||◌, Option, none, some, List,
  [], ◌∷◌, if◌then◌else◌, get_elem?, set, replicate,
}
use aurora_old.Base.Int.{ℤ, pos, pos_part, ltb_ℤ, leb_ℤ}

module _ (Float64 : Type 0) where
  pub record MetricSample : Type 0 where
    pub resource_type : String
    pub resource_id : String
    pub metric_name : String
    pub value : Float64
    pub timestamp : ℤ

  pub record RingBuffer : Type 0 where
    pub capacity : ℕ
    pub samples : List (Option MetricSample)
    pub head : ℕ
    pub size : ℕ

unfoldable pub capacity_for : ℤ → ℕ
capacity_for c = if leb_ℤ c (pos 0) then 50000 else pos_part c

module _ {Float64 : Type 0} where
  unfoldable pub new_ring : ℤ → RingBuffer Float64
  new_ring c = record {
    capacity = capacity_for c;
    samples = replicate (capacity_for c) none;
    head = 0;
    size = 0;
  }

  unfoldable pub store : MetricSample Float64 → RingBuffer Float64 → RingBuffer Float64
  store s r = record r {
    samples = set r.samples r.head (some s);
    head = (r.head + 1) % r.capacity;
    size = if ltb r.size r.capacity then r.size + 1 else r.size;
  }

  unfoldable pub push : Option (MetricSample Float64) → RingBuffer Float64 → RingBuffer Float64
  push none r = r
  push (some s) r = store s r

  -- The loop of `PushBatch`, which skips nil.
  unfoldable pub push_batch :
      List (Option (MetricSample Float64)) → RingBuffer Float64 → RingBuffer Float64
  push_batch [] r = r
  push_batch (none ∷ rest) r = push_batch rest r
  push_batch (some s ∷ rest) r = push_batch rest (store s r)

  abbrev pub joined : Option (Option (MetricSample Float64)) → Option (MetricSample Float64)
  joined none = none
  joined (some s) = s

  -- `rb.samples[(rb.head - 1 - i + rb.capacity) % rb.capacity]`
  unfoldable pub sample_at : RingBuffer Float64 → ℕ → Option (MetricSample Float64)
  sample_at r i = joined (get_elem? r.samples ((r.head + r.capacity - 1 - i) % r.capacity))

  -- The samples of one series between two times.
  unfoldable pub in_series : String → String → String → ℤ → ℤ → MetricSample Float64 → Bool
  in_series res_type res_id name from to s =
      s.resource_type == res_type
      && (s.resource_id == res_id
          && (s.metric_name == name
              && (not (ltb_ℤ s.timestamp from) && not (ltb_ℤ to s.timestamp))))

  -- The loop from `i` over the `n` indices that are left.
  unfoldable pub matching_from :
      (MetricSample Float64 → Bool) → RingBuffer Float64 → ℕ → ℕ → List (MetricSample Float64)
  matching_from fits r i zero = []
  matching_from fits r i (suc n) =
      let rest = matching_from fits r (suc i) n in
      elim (sample_at r i) [ none ↦ rest | some s ↦ if fits s then s ∷ rest else rest ]

  unfoldable pub matching :
      String → String → String → ℤ → ℤ → RingBuffer Float64 → List (MetricSample Float64)
  matching res_type res_id name from to r =
      matching_from (in_series res_type res_id name from to) r 0 r.size

unfoldable pub get_metric_unit : String → String
get_metric_unit name =
    if name == "cpu_percent"
    then "%"
    else if name == "memory_used_bytes"
        || name == "memory_total_bytes"
        || name == "disk_used_bytes"
        || name == "disk_total_bytes"
        || name == "net_rx_bytes"
        || name == "net_tx_bytes"
    then "bytes"
    else if name == "load_1m" || name == "load_5m" || name == "load_15m"
    then "load"
    else "value"
