-- ===== src/Billing/Reserve.antt =====
-- What a tenant's usage is after a reservation and after its rollback: the quota repository of
-- internal/infra/memory/billing_repo.go under internal/app/billing/quota.go.
use aurora_old.Base.{
  String, Bool, true, false, Option-cases, some, [], ◌∷◌, if◌then◌else◌, Result, ok, err, ◌≡◌, refl,
  inl, inr, arith,
}
use aurora_old.Base.Int.{
  ℤ, pos, ◌+ℤ◌, ◌-ℤ◌, ◌≤ℤ◌, ◌<ℤ◌, ltb_ℤ, int64, int64_id, max_int64, +ℤ_parts, -ℤ_parts,
  eq_of_parts,
}
use aurora_old.Billing.Quota.{MetricType, Quota, BillingError}
use aurora_old.Billing.Repo.{
  Quotas, find_quota, put_quota, same_key, same_key_eq, same_key_lead, same_key_end, found_or_new,
  with_limit, use_quota, reserve_quota, give_back, release_quota,
}
use aurora_old.Billing.Engine.{usage_of, undo, claim}

unfoldable pub usage : String → MetricType → Quotas → ℤ
usage tenant metric m = usage_of (find_quota tenant metric m)

pub find_quota-put_quota :
    (tenant : String) (metric : MetricType) (q : Quota) (t : String) (k : MetricType) (m : Quotas)
    → find_quota t k (put_quota tenant metric q m)
      ≡ (if same_key tenant metric t k then some q else find_quota t k m)
unfolding find_quota put_quota
find_quota-put_quota tenant metric q t k [] = ground arith
find_quota-put_quota tenant metric q t k (e ∷ rest) = ground (
  arith,
  find_quota-put_quota tenant metric q t k rest,
  same_key_lead e.tenant tenant t e.metric metric k,
  same_key_end tenant t e.tenant metric k e.metric,
)

-- What a request for `amount` adds to a usage, and what its release takes away.
unfoldable pub more : ℤ → ℤ → ℤ
more amount u = if ltb_ℤ (pos 0) amount then int64 (u +ℤ amount) else u

unfoldable pub less : ℤ → ℤ → ℤ
less amount u =
    if ltb_ℤ (pos 0) amount
    then (if ltb_ℤ (int64 (u -ℤ amount)) (pos 0) then pos 0 else int64 (u -ℤ amount))
    else u

abbrev pub more_if : Result BillingError (Unit {0}) → Bool → ℤ → ℤ → ℤ
more_if (ok _) true amount u = more amount u
more_if (ok _) false amount u = u
more_if (err e) b amount u = u

-- At each key, a request adds to the usage of its own key, and only if it is granted.
abbrev pub Adds :
    String
    → MetricType
    → ℤ
    → Quotas
    → Quotas × Result BillingError (Unit {0})
    → String
    → MetricType
    → Type 0
Adds tenant metric amount m (m', r) t k =
    usage t k m' ≡ more_if r (same_key tenant metric t k) amount (usage t k m)

put_quota-usage :
    (tenant : String) (metric : MetricType) (q : Quota) (m : Quotas) (t : String) (k : MetricType)
    → usage t k (put_quota tenant metric q m)
      ≡ (if same_key tenant metric t k then q.current_usage else usage t k m)
unfolding usage
put_quota-usage tenant metric q m t k = ground (arith, find_quota-put_quota tenant metric q t k m)

same_key-usage :
    (tenant : String) (metric : MetricType) (m : Quotas) (t : String) (k : MetricType)
    → same_key tenant metric t k ≡ true
    → usage tenant metric m ≡ usage t k m
same_key-usage tenant metric m t k h =
    let (e, f) = same_key_eq tenant t metric k h in rw (e, f) refl

pub with_limit-usage :
    (now : ℤ) (tenant : String) (metric : MetricType) (limit : ℤ) (m : Quotas)
    → (with_limit limit
        (found_or_new now tenant metric limit (find_quota tenant metric m))).current_usage
      ≡ usage tenant metric m
unfolding with_limit usage
with_limit-usage now tenant metric limit m = ground arith

reserve_quota-usage :
    (now : ℤ) (tenant : String) (metric : MetricType) (amount limit : ℤ) (m : Quotas) (t : String)
    (k : MetricType)
    → pos 0 <ℤ amount
    → Adds tenant metric amount m (reserve_quota now tenant metric amount limit m) t k
unfolding reserve_quota use_quota usage more
reserve_quota-usage now tenant metric amount limit m t k h =
    let q = with_limit limit (found_or_new now tenant metric limit (find_quota tenant metric m)) in
    let e = with_limit-usage now tenant metric limit m in
    let s = same_key-usage tenant metric m t k in
    let a = put_quota-usage tenant metric q m t k in
    let b = put_quota-usage tenant metric (use_quota now amount q) m t k in ground arith

pub claim-usage :
    (now : ℤ) (tenant : String) (metric : MetricType) (amount limit : ℤ) (m : Quotas) (t : String)
    (k : MetricType)
    → Adds tenant metric amount m (claim now tenant metric amount limit m) t k
unfolding claim more
claim-usage now tenant metric amount limit m t k =
    ground (arith, reserve_quota-usage now tenant metric amount limit m t k)

none_less : (amount : ℤ) → amount ≤ℤ max_int64 → less amount (pos 0) ≡ pos 0
unfolding int64 ◌-ℤ◌ less
none_less amount h = ground arith

release_quota-usage :
    (now : ℤ) (tenant : String) (metric : MetricType) (amount : ℤ) (m : Quotas) (t : String)
    (k : MetricType)
    → amount ≤ℤ max_int64
    → pos 0 <ℤ amount
    → usage t k (release_quota now tenant metric amount m)
      ≡ (if same_key tenant metric t k then less amount (usage t k m) else usage t k m)
unfolding release_quota give_back usage less
release_quota-usage now tenant metric amount m t k h p =
    let s = same_key-usage tenant metric m t k in
    elim (Option-cases (find_quota tenant metric m)) [
      | inl e ↦ ground (arith, none_less amount h)
      | inr h' ↦ ground (arith, put_quota-usage tenant metric (give_back now amount h'.0) m t k)
    ]

pub undo-usage :
    (now : ℤ) (tenant : String) (metric : MetricType) (amount : ℤ) (m : Quotas) (t : String)
    (k : MetricType)
    → amount ≤ℤ max_int64
    → usage t k (undo now tenant metric amount m)
      ≡ (if same_key tenant metric t k then less amount (usage t k m) else usage t k m)
unfolding undo less
undo-usage now tenant metric amount m t k h =
    ground (arith, release_quota-usage now tenant metric amount m t k h)

less-more_u :
    (amount u : ℤ)
    → pos 0 ≤ℤ u
    → u +ℤ amount ≤ℤ max_int64
    → pos 0 <ℤ amount
    → int64 (int64 (u +ℤ amount) -ℤ amount) ≡ u
less-more_u amount u h k p = ground (
  arith,
  int64_id (u +ℤ amount),
  +ℤ_parts u amount,
  -ℤ_parts (u +ℤ amount) amount,
  int64_id (u +ℤ amount -ℤ amount),
  eq_of_parts (u +ℤ amount -ℤ amount) u,
)

pub less-more :
    (amount u : ℤ) → pos 0 ≤ℤ u → u +ℤ amount ≤ℤ max_int64 → less amount (more amount u) ≡ u
unfolding more less
less-more amount u h k = ground (arith, less-more_u amount u)
