-- ===== src/Billing/Engine.antt =====
-- internal/app/billing/quota.go: the quota engine over the in-memory repositories. The mutex makes
-- each call atomic; `now` stands for the clock readings of one call.
use aurora_old.Base.{
  String, Bool, true, ◌&&◌, Option, none, some, List, [], ◌∷◌, if◌then◌else◌, Result, ok, err,
  ◌>>=◌, ◌>>◌, fail_if,
}
use aurora_old.Base.Int.{ℤ, pos, ◌+ℤ◌, ltb_ℤ, int64}
use aurora_old.Billing.Quota.{
  BillingError, quota_exceeded, MetricType, vcpu_hours, ram_gb_hours, storage_gb_months,
  ipv4_addresses, instance_count, Quota, ResourceSpec, Plan, Subscription,
}
use aurora_old.Billing.Repo.{
  Quotas, find_quota, reserve_quota, release_quota, Catalog, plan_by_id, list_plans,
  subscription_by_tenant,
}

-- The first active plan stands in for a missing subscription.
abbrev fallback : List Plan → BillingError → Result BillingError Plan
fallback [] e = err e
fallback (p ∷ ps) e = ok p

abbrev plan_of : Result BillingError Subscription → Catalog → Result BillingError Plan
plan_of (err e) c = fallback (list_plans true c) e
plan_of (ok s) c = plan_by_id s.plan_id c

unfoldable pub get_tenant_plan : String → Catalog → Result BillingError Plan
get_tenant_plan tenant c = plan_of (subscription_by_tenant tenant c) c

abbrev pub usage_of : Option Quota → ℤ
usage_of none = pos 0
usage_of (some q) = q.current_usage

-- One metric of `CheckQuota`.
unfoldable pub exceeds : String → MetricType → ℤ → ℤ → Quotas → Bool
exceeds tenant metric amount limit m =
    ltb_ℤ (pos 0) amount
    && (ltb_ℤ (pos 0) limit
        && ltb_ℤ limit (int64 (usage_of (find_quota tenant metric m) +ℤ amount)))

abbrev pub check_plan : String → ResourceSpec → Quotas → Plan → Result BillingError (Unit {0})
check_plan tenant spec m plan = do
  fail_if (exceeds tenant instance_count spec.instances plan.maximum_instances m) quota_exceeded
  fail_if (exceeds tenant vcpu_hours spec.vcpu plan.maximum_vcpu m) quota_exceeded
  fail_if (exceeds tenant ram_gb_hours spec.memory_mb plan.maximum_memory_mb m) quota_exceeded
  fail_if (exceeds tenant storage_gb_months spec.storage_mb plan.maximum_storage_mb m)
      quota_exceeded

unfoldable pub check_quota :
    String → ResourceSpec → Catalog → Quotas → Result BillingError (Unit {0})
check_quota tenant spec c m = get_tenant_plan tenant c >>= check_plan tenant spec m

-- `if amount > 0 { release }`
unfoldable pub undo : ℤ → String → MetricType → ℤ → Quotas → Quotas
undo now tenant metric amount m =
    if ltb_ℤ (pos 0) amount then release_quota now tenant metric amount m else m

-- `if amount > 0 { reserve }`
unfoldable pub claim :
    ℤ → String → MetricType → ℤ → ℤ → Quotas → Quotas × Result BillingError (Unit {0})
claim now tenant metric amount limit m =
    if ltb_ℤ (pos 0) amount then reserve_quota now tenant metric amount limit m else (m, ok tt)

-- `if err != nil { …; return err }`, where the dots leave the quotas `undone`.
abbrev pub unless_err :
    Result BillingError (Unit {0})
    → Quotas × Result BillingError (Unit {0})
    → Quotas
    → Quotas × Result BillingError (Unit {0})
unless_err (ok _) next undone = next
unless_err (err e) next undone = (undone, err e)

module _ (now : ℤ) (tenant : String) (spec : ResourceSpec) (plan : Plan) where
  -- The last of the four reservations, with its rollback.
  unfoldable pub reserve_storage : Quotas → Quotas × Result BillingError (Unit {0})
  reserve_storage m =
      let (m', r) = claim now tenant storage_gb_months spec.storage_mb plan.maximum_storage_mb m in
      unless_err r (m', ok tt)
        (undo now tenant ram_gb_hours spec.memory_mb
          (undo now tenant vcpu_hours spec.vcpu (undo now tenant instance_count spec.instances m')))

  unfoldable pub reserve_memory : Quotas → Quotas × Result BillingError (Unit {0})
  reserve_memory m =
      let (m', r) = claim now tenant ram_gb_hours spec.memory_mb plan.maximum_memory_mb m in
      unless_err r (reserve_storage m')
        (undo now tenant vcpu_hours spec.vcpu (undo now tenant instance_count spec.instances m'))

  unfoldable pub reserve_vcpu : Quotas → Quotas × Result BillingError (Unit {0})
  reserve_vcpu m =
      let (m', r) = claim now tenant vcpu_hours spec.vcpu plan.maximum_vcpu m in
      unless_err r (reserve_memory m') (undo now tenant instance_count spec.instances m')

  unfoldable pub reserve_all : Quotas → Quotas × Result BillingError (Unit {0})
  reserve_all m =
      let (m', r) = claim now tenant instance_count spec.instances plan.maximum_instances m in
      unless_err r (reserve_vcpu m') m'

-- `QuotaEngine.ReserveQuota`
abbrev pub reserve_for :
    ℤ
    → String
    → ResourceSpec
    → Quotas
    → Result BillingError Plan
    → Quotas × Result BillingError (Unit {0})
reserve_for now tenant spec m (err e) = (m, err e)
reserve_for now tenant spec m (ok plan) = reserve_all now tenant spec plan m

unfoldable pub reserve :
    ℤ → String → ResourceSpec → Catalog → Quotas → Quotas × Result BillingError (Unit {0})
reserve now tenant spec c m = reserve_for now tenant spec m (get_tenant_plan tenant c)

-- `QuotaEngine.ReleaseQuota`
unfoldable pub release : ℤ → String → ResourceSpec → Quotas → Quotas
release now tenant spec m = undo now tenant ipv4_addresses spec.ipv4 (
    undo now tenant storage_gb_months spec.storage_mb (
      undo now tenant ram_gb_hours spec.memory_mb
        (undo now tenant vcpu_hours spec.vcpu (undo now tenant instance_count spec.instances m))))
