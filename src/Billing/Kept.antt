-- ===== src/Billing/Kept.antt =====
-- internal/app/billing/quota.go over internal/infra/memory/billing_repo.go: where ReserveQuota refuses what
-- CheckQuota lets pass.
use aurora_old.Base.{
  String, true, false, not, some, Option-cases, Bool-cases, ok, is_ok, ◌≡◌, ◌↔◌, refl, ◌∙◌, inl,
  inr, arith,
}
use aurora_old.Base.Int.{ℤ, pos, ◌+ℤ◌, ◌<ℤ◌, ◌≤ℤ◌, int64}
use aurora_old.Billing.Quota.{
  MetricType, vcpu_hours, ram_gb_hours, storage_gb_months, instance_count, ipv4_addresses,
  snapshot_count, backup_storage_mb, network_egress_gb, ResourceSpec, Plan, Quota,
}
use aurora_old.Billing.Repo.{Quotas, Catalog, find_quota}
use aurora_old.Billing.Engine.{
  exceeds, check_plan, check_quota, reserve_all, reserve, get_tenant_plan,
}
use aurora_old.Billing.Rollback.{requested}
use aurora_old.Billing.Limits.{plan_limit}
use aurora_old.Billing.Stale.{stale, refuses, all_granted}

-- The plan sets no limit on the metric, and the request is over the one that the quota keeps.
abbrev pub IsOverKept : String → ResourceSpec → Plan → Quotas → MetricType → Type 0
IsOverKept tenant spec plan m k =
    (limit : ℤ) × (q : Quota) × (plan_limit plan k ≡ some limit)
    × (limit ≤ℤ pos 0)
    × (pos 0 <ℤ requested spec k)
    × (find_quota tenant k m ≡ some q)
    × (pos 0 <ℤ q.limit)
    × (q.limit <ℤ int64 (q.current_usage +ℤ requested spec k))

module _ (tenant : String) (spec : ResourceSpec) (plan : Plan) (m : Quotas) where
  stale-IsOverKept :
      (k : MetricType) (limit : ℤ)
      → plan_limit plan k ≡ some limit
      → stale tenant k (requested spec k) limit m ≡ true
      → IsOverKept tenant spec plan m k
  unfolding stale
  stale-IsOverKept k limit p h = elim (Option-cases (find_quota tenant k m)) [
    | inl e ↦ ground arith
    | inr (q, e) ↦ (limit, q, p, ground arith, ground arith, e, ground arith, ground arith)
  ]

  IsOverKept-stale :
      (k : MetricType) (limit : ℤ)
      → plan_limit plan k ≡ some limit
      → IsOverKept tenant spec plan m k
      → stale tenant k (requested spec k) limit m ≡ true
  unfolding stale
  IsOverKept-stale k limit p (l, q, a, b, c, d, e, f) =
      let same : l ≡ limit = cc in rw d (ground arith)

  refuses-parts :
      (k : MetricType) (limit : ℤ)
      → plan_limit plan k ≡ some limit
      → not (refuses tenant k (requested spec k) limit m) ≡ true
      → (exceeds tenant k (requested spec k) limit m ≡ false) × ¬ (IsOverKept tenant spec plan m k)
  unfolding refuses
  refuses-parts k limit p h = (
    ground arith,
    λ o. let s = IsOverKept-stale k limit p o in let c : false ≡ true = ground arith in cc,
  )

  parts-refuses :
      (k : MetricType) (limit : ℤ)
      → plan_limit plan k ≡ some limit
      → exceeds tenant k (requested spec k) limit m ≡ false
      → ¬ (IsOverKept tenant spec plan m k)
      → refuses tenant k (requested spec k) limit m ≡ false
  unfolding refuses
  parts-refuses k limit p e n = elim (Bool-cases (stale tenant k (requested spec k) limit m)) [
    | inl s ↦ absurd (n (stale-IsOverKept k limit p s))
    | inr s ↦ rw (e, s) refl
  ]

  none_kept :
      ¬ (IsOverKept tenant spec plan m instance_count)
      → ¬ (IsOverKept tenant spec plan m vcpu_hours)
      → ¬ (IsOverKept tenant spec plan m ram_gb_hours)
      → ¬ (IsOverKept tenant spec plan m storage_gb_months)
      → (k : MetricType) → ¬ (IsOverKept tenant spec plan m k)
  none_kept a b c d instance_count o = a o
  none_kept a b c d vcpu_hours o = b o
  none_kept a b c d ram_gb_hours o = c o
  none_kept a b c d storage_gb_months o = d o
  none_kept a b c d ipv4_addresses o = cc
  none_kept a b c d snapshot_count o = cc
  none_kept a b c d backup_storage_mb o = cc
  none_kept a b c d network_egress_gb o = cc

  granted-checked :
      (now : ℤ)
      → is_ok (reserve_all now tenant spec plan m).1 ≡ true
      → (is_ok (check_plan tenant spec m plan) ≡ true)
        × ((k : MetricType) → ¬ (IsOverKept tenant spec plan m k))
  granted-checked now h =
      let g = rw (all_granted now tenant spec plan m) at h in
      let i = refuses-parts instance_count plan.maximum_instances refl (ground arith) in
      let v = refuses-parts vcpu_hours plan.maximum_vcpu refl (ground arith) in
      let r = refuses-parts ram_gb_hours plan.maximum_memory_mb refl (ground arith) in
      let s = refuses-parts storage_gb_months plan.maximum_storage_mb refl (ground arith) in
      (rw (i.0, v.0, r.0, s.0) refl, none_kept i.1 v.1 r.1 s.1)

  checked-granted :
      (now : ℤ)
      → is_ok (check_plan tenant spec m plan) ≡ true
      → ((k : MetricType) → ¬ (IsOverKept tenant spec plan m k))
      → is_ok (reserve_all now tenant spec plan m).1 ≡ true
  checked-granted now h n =
      let i =
        parts-refuses instance_count plan.maximum_instances refl (ground arith)
          (n instance_count) in
      let v = parts-refuses vcpu_hours plan.maximum_vcpu refl (ground arith) (n vcpu_hours) in
      let r =
        parts-refuses ram_gb_hours plan.maximum_memory_mb refl (ground arith) (n ram_gb_hours) in
      let s =
        parts-refuses storage_gb_months plan.maximum_storage_mb refl (ground arith)
          (n storage_gb_months) in
      all_granted now tenant spec plan m ∙ rw (i, v, r, s) refl

-- For a tenant with a plan, ReserveQuota grants a request exactly where CheckQuota passes it and there is no
-- metric on which the plan sets no limit (0 or less), the quota keeps a limit from before, and the
-- request is over that one.
pub reserve-kept :
    (now : ℤ) (tenant : String) (spec : ResourceSpec) (plan : Plan) (c : Catalog) (m : Quotas)
    → get_tenant_plan tenant c ≡ ok plan
    → (is_ok (reserve now tenant spec c m).1 ≡ true) ↔ (
        (is_ok (check_quota tenant spec c m) ≡ true)
        × ((k : MetricType) → ¬ (IsOverKept tenant spec plan m k)))
unfolding reserve check_quota
reserve-kept now tenant spec plan c m e = rw e (
  λ h. granted-checked tenant spec plan m now h,
  λ h. checked-granted tenant spec plan m now h.0 h.1,
)
