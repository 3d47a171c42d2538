-- ===== src/Billing/Limits.antt =====
-- internal/app/billing/quota.go: CheckQuota and ReserveQuota decide alike.
use aurora_old.Base.{
  String, true, false, not, Option, none, some, eq_refl, ◌&&◌, ok, is_ok, ◌≡◌, ◌∙◌, refl, sym,
  arith,
}
use aurora_old.Base.Int.{ℤ, pos, ◌+ℤ◌, ◌<ℤ◌, ◌≤ℤ◌, ltb_ℤ, int64, eq_of_parts}
use aurora_old.Billing.Quota.{
  MetricType, vcpu_hours, ram_gb_hours, storage_gb_months, instance_count, ipv4_addresses,
  snapshot_count, backup_storage_mb, network_egress_gb, same_metric, ResourceSpec, Plan, Quota,
}
use aurora_old.Billing.Repo.{
  Quotas, Catalog, same_key, find_quota, found_or_new, with_limit, over_limit, reserve_quota,
}
use aurora_old.Billing.Engine.{
  exceeds, check_plan, check_quota, claim, reserve_storage, reserve_memory, reserve_vcpu,
  reserve_all, reserve, get_tenant_plan,
}
use aurora_old.Billing.Rollback.{requested, Room, reserve-usage}
use aurora_old.Billing.Reserve.{usage, more, claim-usage, with_limit-usage}

with_limit-limit : (limit : ℤ) (q : Quota) → pos 0 <ℤ limit → (with_limit limit q).limit ≡ limit
unfolding with_limit
with_limit-limit limit q h = ground (arith, eq_of_parts q.limit limit)

pub over_limit-usage :
    (now : ℤ) (tenant : String) (metric : MetricType) (amount limit : ℤ) (m : Quotas)
    → pos 0 <ℤ limit
    → over_limit amount
        (with_limit limit (found_or_new now tenant metric limit (find_quota tenant metric m)))
      ≡ ltb_ℤ limit (int64 (usage tenant metric m +ℤ amount))
unfolding over_limit
over_limit-usage now tenant metric amount limit m h =
    let q = with_limit limit (found_or_new now tenant metric limit (find_quota tenant metric m)) in
    let e : q.limit ≡ limit = with_limit-limit limit _ h in
    ground (arith, with_limit-usage now tenant metric limit m)

-- A metric is claimed where the check of it passes.
claim_ok :
    (now : ℤ) (tenant : String) (metric : MetricType) (amount limit : ℤ) (m : Quotas)
    → pos 0 <ℤ limit
    → is_ok (claim now tenant metric amount limit m).1 ≡ not (exceeds tenant metric amount limit m)
unfolding claim reserve_quota exceeds usage
claim_ok now tenant metric amount limit m h =
    ground (arith, over_limit-usage now tenant metric amount limit m h)

exceeds_again :
    (tenant : String) (metric : MetricType) (amount limit : ℤ) (m m' : Quotas)
    → usage tenant metric m ≡ usage tenant metric m'
    → exceeds tenant metric amount limit m ≡ exceeds tenant metric amount limit m'
unfolding exceeds usage
exceeds_again tenant metric amount limit m m' h = rw h refl

-- Claiming one metric leaves the check of another as it is.
pub exceeds-claim :
    (now : ℤ) (tenant : String) (i j : MetricType) (a l amount limit : ℤ) (m : Quotas)
    → same_metric i j ≡ false
    → exceeds tenant j amount limit (claim now tenant i a l m).0 ≡ exceeds tenant j amount limit m
unfolding same_key
exceeds-claim now tenant i j a l amount limit m h =
    exceeds_again tenant j amount limit (claim now tenant i a l m).0 m
      (ground (arith, claim-usage now tenant i a l m tenant j))

-- Every limit of a plan is set.
abbrev pub Limited : Plan → Type 0
Limited p =
    (pos 0 <ℤ p.maximum_instances)
    × (pos 0 <ℤ p.maximum_vcpu)
    × (pos 0 <ℤ p.maximum_memory_mb)
    × (pos 0 <ℤ p.maximum_storage_mb)

module _ (now : ℤ) (tenant : String) (spec : ResourceSpec) (plan : Plan) (lim : Limited plan) where
  storage_ok :
      (m : Quotas)
      → is_ok (reserve_storage now tenant spec plan m).1
        ≡ not (exceeds tenant storage_gb_months spec.storage_mb plan.maximum_storage_mb m)
  unfolding reserve_storage
  storage_ok m =
      ground (
        arith,
        claim_ok now tenant storage_gb_months spec.storage_mb plan.maximum_storage_mb m lim.3,
      )

  memory_ok :
      (m : Quotas)
      → is_ok (reserve_memory now tenant spec plan m).1 ≡ (
          not (exceeds tenant ram_gb_hours spec.memory_mb plan.maximum_memory_mb m)
          && not (exceeds tenant storage_gb_months spec.storage_mb plan.maximum_storage_mb m))
  unfolding reserve_memory
  memory_ok m =
      let (m', r) = claim now tenant ram_gb_hours spec.memory_mb plan.maximum_memory_mb m in
      let c = claim_ok now tenant ram_gb_hours spec.memory_mb plan.maximum_memory_mb m lim.2 in
      let s = storage_ok m' in
      let e =
        exceeds-claim now tenant ram_gb_hours storage_gb_months spec.memory_mb
          plan.maximum_memory_mb spec.storage_mb plan.maximum_storage_mb m refl in
      ground arith

  vcpu_ok :
      (m : Quotas)
      → is_ok (reserve_vcpu now tenant spec plan m).1 ≡ (
          not (exceeds tenant vcpu_hours spec.vcpu plan.maximum_vcpu m)
          && (not (exceeds tenant ram_gb_hours spec.memory_mb plan.maximum_memory_mb m)
              && not (exceeds tenant storage_gb_months spec.storage_mb plan.maximum_storage_mb m)))
  unfolding reserve_vcpu
  vcpu_ok m =
      let (m', r) = claim now tenant vcpu_hours spec.vcpu plan.maximum_vcpu m in
      let c = claim_ok now tenant vcpu_hours spec.vcpu plan.maximum_vcpu m lim.1 in
      let s = memory_ok m' in
      let keeps = exceeds-claim now tenant vcpu_hours in
      let e =
        keeps ram_gb_hours spec.vcpu plan.maximum_vcpu spec.memory_mb plan.maximum_memory_mb m
          refl in
      let f =
        keeps storage_gb_months spec.vcpu plan.maximum_vcpu spec.storage_mb plan.maximum_storage_mb
          m refl in
      ground arith

  all_ok :
      (m : Quotas)
      → is_ok (reserve_all now tenant spec plan m).1 ≡ is_ok (check_plan tenant spec m plan)
  unfolding reserve_all
  all_ok m =
      let (m', r) = claim now tenant instance_count spec.instances plan.maximum_instances m in
      let c = claim_ok now tenant instance_count spec.instances plan.maximum_instances m lim.0 in
      let s = vcpu_ok m' in
      let keeps = exceeds-claim now tenant instance_count in
      let d =
        keeps vcpu_hours spec.instances plan.maximum_instances spec.vcpu plan.maximum_vcpu m refl in
      let e =
        keeps ram_gb_hours spec.instances plan.maximum_instances spec.memory_mb
          plan.maximum_memory_mb m refl in
      let f =
        keeps storage_gb_months spec.instances plan.maximum_instances spec.storage_mb
          plan.maximum_storage_mb m refl in
      ground arith

-- For a tenant whose plan sets every limit, a reservation is granted exactly where the check of the
-- same request passes.
pub check_quota-reserve :
    (now : ℤ) (tenant : String) (spec : ResourceSpec) (plan : Plan) (c : Catalog) (m : Quotas)
    → get_tenant_plan tenant c ≡ ok plan
    → Limited plan
    → is_ok (check_quota tenant spec c m) ≡ is_ok (reserve now tenant spec c m).1
unfolding check_quota reserve
check_quota-reserve now tenant spec plan c m e lim = rw e (sym (all_ok now tenant spec plan lim m))

-- The limit that a plan sets on a metric; a metric without one has none.
abbrev pub plan_limit : Plan → MetricType → Option ℤ
plan_limit plan instance_count = some plan.maximum_instances
plan_limit plan vcpu_hours = some plan.maximum_vcpu
plan_limit plan ram_gb_hours = some plan.maximum_memory_mb
plan_limit plan storage_gb_months = some plan.maximum_storage_mb
plan_limit plan ipv4_addresses = none
plan_limit plan snapshot_count = none
plan_limit plan backup_storage_mb = none
plan_limit plan network_egress_gb = none

not_exceeded :
    (tenant : String) (metric : MetricType) (amount limit : ℤ) (m : Quotas)
    → pos 0 <ℤ amount
    → pos 0 <ℤ limit
    → exceeds tenant metric amount limit m ≡ false
    → int64 (usage tenant metric m +ℤ amount) ≤ℤ limit
unfolding exceeds usage
not_exceeded tenant metric amount limit m p q h = ground arith

checked_within :
    (tenant : String) (spec : ResourceSpec) (plan : Plan) (k : MetricType) (limit : ℤ) (m : Quotas)
    → Limited plan
    → plan_limit plan k ≡ some limit
    → pos 0 <ℤ requested spec k
    → is_ok (check_plan tenant spec m plan) ≡ true
    → int64 (usage tenant k m +ℤ requested spec k) ≤ℤ limit
checked_within tenant spec plan instance_count limit m lim e p h =
    ground (arith, not_exceeded tenant instance_count spec.instances limit m p)
checked_within tenant spec plan vcpu_hours limit m lim e p h =
    ground (arith, not_exceeded tenant vcpu_hours spec.vcpu limit m p)
checked_within tenant spec plan ram_gb_hours limit m lim e p h =
    ground (arith, not_exceeded tenant ram_gb_hours spec.memory_mb limit m p)
checked_within tenant spec plan storage_gb_months limit m lim e p h =
    ground (arith, not_exceeded tenant storage_gb_months spec.storage_mb limit m p)
checked_within tenant spec plan ipv4_addresses limit m lim e p h = omega arith
checked_within tenant spec plan snapshot_count limit m lim e p h = omega arith
checked_within tenant spec plan backup_storage_mb limit m lim e p h = omega arith
checked_within tenant spec plan network_egress_gb limit m lim e p h = omega arith

-- Under a plan that sets every limit, and where the tenant's usages are at least 0 and leave room for
-- the request in 64 bits, a granted reservation leaves each metric that it took at most at the
-- plan's limit.
pub reserve-within :
    (now : ℤ) (tenant : String) (spec : ResourceSpec) (plan : Plan) (c : Catalog) (m : Quotas)
    (k : MetricType) (limit : ℤ)
    → get_tenant_plan tenant c ≡ ok plan
    → Limited plan
    → Room tenant spec m
    → plan_limit plan k ≡ some limit
    → pos 0 <ℤ requested spec k
    → is_ok (reserve now tenant spec c m).1 ≡ true
    → usage tenant k (reserve now tenant spec c m).0 ≤ℤ limit
unfolding more
reserve-within now tenant spec plan c m k limit e lim room f p g =
    let taken = reserve-usage now tenant spec c m tenant k room in
    let checked : is_ok (check_quota tenant spec c m) ≡ true =
      check_quota-reserve now tenant spec plan c m e lim ∙ g in
    let same : check_quota tenant spec c m ≡ check_plan tenant spec m plan =
      unfold check_quota in rw e refl in
    let within = checked_within tenant spec plan k limit m lim f p (rw (← same) checked) in
    ground (arith, eq_refl tenant)
