-- ===== src/Billing/Repo.antt =====
-- internal/infra/memory/billing_repo.go: the quota repository, and the lookups of plans and
-- subscriptions. The map of maps `tenant -> metric -> quota` is one list of entries with both keys;
-- an inner map that is still empty reads like one that is not there.
use aurora_old.Base.{
  String, ◌==◌, eq_iff, Bool, true, ◌||◌, ◌&&◌, Option, none, some, List, [], ◌∷◌, if◌then◌else◌,
  keep, map, not, Result, ok, err, ◌≡◌, refl, arith,
}
use aurora_old.Base.Int.{ℤ, pos, ◌+ℤ◌, ◌-ℤ◌, ltb_ℤ, eqb_ℤ, int64}
use aurora_old.Base.Assoc.{Assoc, lookup}
use aurora_old.Billing.Quota.{
  BillingError, quota_exceeded, quota_not_found, plan_not_found, subscription_not_found, MetricType,
  same_metric, Quota, Plan, Subscription,
}

pub record QuotaEntry : Type 0 where
  pub tenant : String
  pub metric : MetricType
  pub quota : Quota

abbrev pub Quotas : Type 0
Quotas = List QuotaEntry

-- The two keys of the maps, compared.
unfoldable pub same_key : String → MetricType → String → MetricType → Bool
same_key tenant metric t k = tenant == t && same_metric metric k

-- `r.quotas[tenant][metric]`
unfoldable pub find_quota : String → MetricType → Quotas → Option Quota
find_quota tenant metric [] = none
find_quota tenant metric (e ∷ rest) =
    if same_key e.tenant e.metric tenant metric then some e.quota else find_quota tenant metric rest

unfoldable pub put_quota : String → MetricType → Quota → Quotas → Quotas
put_quota tenant metric q [] = record { tenant = tenant; metric = metric; quota = q } ∷ []
put_quota tenant metric q (e ∷ rest) =
    if same_key e.tenant e.metric tenant metric
    then record e { quota = q } ∷ rest
    else e ∷ put_quota tenant metric q rest

unfoldable pub get_quota : String → MetricType → Quotas → Result BillingError Quota
get_quota tenant metric m = elim (find_quota tenant metric m) [
  | none ↦ err quota_not_found
  | some q ↦ ok q
]

-- `SetQuota`
unfoldable pub set_quota : ℤ → Quota → Quotas → Quotas
set_quota now q m = put_quota q.tenant_id q.metric (record q { updated_at = now }) m

-- The quota that `ReserveQuota` finds or creates, with the limit brought up to date.
abbrev pub found_or_new : ℤ → String → MetricType → ℤ → Option Quota → Quota
found_or_new now tenant metric limit none = record {
  tenant_id = tenant;
  metric = metric;
  limit = limit;
  current_usage = pos 0;
  reset_period = "none";
  updated_at = now;
}
found_or_new now tenant metric limit (some q) = q

unfoldable pub with_limit : ℤ → Quota → Quota
with_limit limit q =
    if ltb_ℤ (pos 0) limit && not (eqb_ℤ q.limit limit) then record q { limit = limit } else q

unfoldable pub over_limit : ℤ → Quota → Bool
over_limit delta q = ltb_ℤ (pos 0) q.limit && ltb_ℤ q.limit (int64 (q.current_usage +ℤ delta))

unfoldable pub use_quota : ℤ → ℤ → Quota → Quota
use_quota now delta q = record q {
  current_usage = int64 (q.current_usage +ℤ delta);
  updated_at = now;
}

-- The quota stays created, and its limit up to date, also where the request is refused.
unfoldable pub reserve_quota :
    ℤ → String → MetricType → ℤ → ℤ → Quotas → Quotas × Result BillingError (Unit {0})
reserve_quota now tenant metric delta limit m =
    let q = with_limit limit (found_or_new now tenant metric limit (find_quota tenant metric m)) in
    if over_limit delta q
    then (put_quota tenant metric q m, err quota_exceeded)
    else (put_quota tenant metric (use_quota now delta q) m, ok tt)

unfoldable pub give_back : ℤ → ℤ → Quota → Quota
give_back now delta q =
    let left = int64 (q.current_usage -ℤ delta) in
    record q { current_usage = if ltb_ℤ left (pos 0) then pos 0 else left; updated_at = now }

abbrev pub release_found : ℤ → String → MetricType → ℤ → Option Quota → Quotas → Quotas
release_found now tenant metric delta none m = m
release_found now tenant metric delta (some q) m = put_quota tenant metric (give_back now delta q) m

unfoldable pub release_quota : ℤ → String → MetricType → ℤ → Quotas → Quotas
release_quota now tenant metric delta m =
    release_found now tenant metric delta (find_quota tenant metric m) m

-- The parts of the plan and subscription repositories that the engine reads.
pub record Catalog : Type 0 where
  pub plans : Assoc Plan
  pub subscriptions : Assoc Subscription
  pub tenant_subs : Assoc String

unfoldable pub plan_by_id : String → Catalog → Result BillingError Plan
plan_by_id id c = elim (lookup id c.plans) [ none ↦ err plan_not_found | some p ↦ ok p ]

unfoldable pub list_plans : Bool → Catalog → List Plan
list_plans active_only c = keep (λ p. not active_only || p.active) (map (λ e. e.1) c.plans)

abbrev subscription_of : Option String → Catalog → Result BillingError Subscription
subscription_of none c = err subscription_not_found
subscription_of (some id) c = elim (lookup id c.subscriptions) [
  | none ↦ err subscription_not_found
  | some s ↦ ok s
]

unfoldable pub subscription_by_tenant : String → Catalog → Result BillingError Subscription
subscription_by_tenant tenant c = subscription_of (lookup tenant c.tenant_subs) c

same_metric_eq : (a b : MetricType) → same_metric a b ≡ true → a ≡ b
same_metric_eq a b h = ground arith

pub same_key_eq :
    (tenant t : String) (metric k : MetricType)
    → same_key tenant metric t k ≡ true
    → (tenant ≡ t) × (metric ≡ k)
unfolding same_key
same_key_eq tenant t metric k h = ground (arith, eq_iff tenant t, same_metric_eq metric k)

pub same_key_refl :
    (tenant : String) (metric : MetricType) → same_key tenant metric tenant metric ≡ true
unfolding same_key
same_key_refl tenant metric = ground (arith, eq_iff tenant tenant)

pub same_key_lead :
    (tenant t s : String) (metric k j : MetricType)
    → same_key tenant metric t k ≡ true
    → same_key tenant metric s j ≡ same_key t k s j
same_key_lead tenant t s metric k j h =
    let (e, f) = same_key_eq tenant t metric k h in rw (e, f) refl

pub same_key_end :
    (tenant t s : String) (metric k j : MetricType)
    → same_key tenant metric t k ≡ true
    → same_key s j tenant metric ≡ same_key s j t k
same_key_end tenant t s metric k j h =
    let (e, f) = same_key_eq tenant t metric k h in rw (e, f) refl
