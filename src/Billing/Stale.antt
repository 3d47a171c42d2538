-- ===== src/Billing/Stale.antt =====
-- Limits that a quota keeps from an earlier plan: internal/infra/memory/billing_repo.go and
-- internal/app/billing/quota.go.
use aurora_old.Base.{
  String, Bool, false, not, ◌&&◌, ◌||◌, Option, none, some, Option-cases, Bool-cases, Result, ok,
  err, is_ok, ◌≡◌, ◌∙◌, refl, inl, inr, arith,
}
use aurora_old.Base.Int.{ℤ, pos, ◌+ℤ◌, ltb_ℤ, leb_ℤ, int64}
use aurora_old.Billing.Quota.{
  MetricType, vcpu_hours, ram_gb_hours, storage_gb_months, instance_count, same_metric,
  ResourceSpec, Plan, Quota, BillingError,
}
use aurora_old.Billing.Repo.{
  Quotas, find_quota, put_quota, use_quota, found_or_new, same_key, with_limit, over_limit,
  reserve_quota,
}
use aurora_old.Billing.Engine.{
  exceeds, claim, unless_err, reserve_storage, reserve_memory, reserve_vcpu, reserve_all,
}
use aurora_old.Billing.Reserve.{usage, find_quota-put_quota}
use aurora_old.Billing.Limits.{over_limit-usage, exceeds-claim}

abbrev pub over_stored : ℤ → Option Quota → Bool
over_stored amount none = false
over_stored amount (some q) =
    ltb_ℤ (pos 0) q.limit && ltb_ℤ q.limit (int64 (q.current_usage +ℤ amount))

-- The plan sets no limit, and the stored one is exceeded.
unfoldable pub stale : String → MetricType → ℤ → ℤ → Quotas → Bool
stale tenant metric amount limit m =
    ltb_ℤ (pos 0) amount && (leb_ℤ limit (pos 0) && over_stored amount (find_quota tenant metric m))

claim_or_stale :
    (now : ℤ) (tenant : String) (metric : MetricType) (amount limit : ℤ) (m : Quotas)
    → is_ok (claim now tenant metric amount limit m).1
      ≡ (not (exceeds tenant metric amount limit m) && not (stale tenant metric amount limit m))
unfolding claim reserve_quota exceeds usage stale with_limit over_limit
claim_or_stale now tenant metric amount limit m = elim (Bool-cases (ltb_ℤ (pos 0) limit)) [
  | inl b ↦ ground (arith, over_limit-usage now tenant metric amount limit m)
  | inr b ↦ elim (Option-cases (find_quota tenant metric m)) [
    | inl e ↦ rw e (ground arith)
    | inr (q, e) ↦ rw e (ground arith)
  ]
]

put_other :
    (tenant : String) (i j : MetricType) (q : Quota) (m : Quotas)
    → same_metric i j ≡ false
    → find_quota tenant j (put_quota tenant i q m) ≡ find_quota tenant j m
unfolding same_key
put_other tenant i j q m h = ground (arith, find_quota-put_quota tenant i q tenant j m)

-- Claiming one metric leaves the quota of another as it is.
claim_other :
    (now : ℤ) (tenant : String) (i j : MetricType) (a l : ℤ) (m : Quotas)
    → same_metric i j ≡ false
    → find_quota tenant j (claim now tenant i a l m).0 ≡ find_quota tenant j m
unfolding claim reserve_quota
claim_other now tenant i j a l m h =
    let q = with_limit l (found_or_new now tenant i l (find_quota tenant i m)) in
    elim (Bool-cases (ltb_ℤ (pos 0) a)) [
      | inr b ↦ rw b refl
      | inl b ↦ elim (Bool-cases (over_limit a q)) [
        | inl c ↦ rw (b, c) (put_other tenant i j q m h)
        | inr c ↦ rw (b, c) (put_other tenant i j (use_quota now a q) m h)
      ]
    ]

stale-claim :
    (now : ℤ) (tenant : String) (i j : MetricType) (a l amount limit : ℤ) (m : Quotas)
    → same_metric i j ≡ false
    → stale tenant j amount limit (claim now tenant i a l m).0 ≡ stale tenant j amount limit m
unfolding stale
stale-claim now tenant i j a l amount limit m h = rw (claim_other now tenant i j a l m h) refl

-- Both tests of one metric.
unfoldable pub refuses : String → MetricType → ℤ → ℤ → Quotas → Bool
refuses tenant metric amount limit m =
    exceeds tenant metric amount limit m || stale tenant metric amount limit m

claim-refuses :
    (now : ℤ) (tenant : String) (metric : MetricType) (amount limit : ℤ) (m : Quotas)
    → is_ok (claim now tenant metric amount limit m).1 ≡ not (refuses tenant metric amount limit m)
unfolding refuses
claim-refuses now tenant metric amount limit m =
    let a = claim_or_stale now tenant metric amount limit m in ground arith

refuses-claim :
    (now : ℤ) (tenant : String) (i j : MetricType) (a l amount limit : ℤ) (m : Quotas)
    → same_metric i j ≡ false
    → refuses tenant j amount limit (claim now tenant i a l m).0 ≡ refuses tenant j amount limit m
unfolding refuses
refuses-claim now tenant i j a l amount limit m h =
    rw
      (
        exceeds-claim now tenant i j a l amount limit m h,
        stale-claim now tenant i j a l amount limit m h,
      )
      refl

then_ok :
    (r : Result BillingError (Unit {0})) (next : Quotas × Result BillingError (Unit {0}))
    (undone : Quotas)
    → is_ok (unless_err r next undone).1 ≡ (is_ok r && is_ok next.1)
then_ok (ok _) next undone = refl
then_ok (err e) next undone = refl

module _ (now : ℤ) (tenant : String) (spec : ResourceSpec) (plan : Plan) where
  abbrev pub no_instances : Quotas → Bool
  no_instances m = refuses tenant instance_count spec.instances plan.maximum_instances m

  abbrev pub no_vcpu : Quotas → Bool
  no_vcpu m = refuses tenant vcpu_hours spec.vcpu plan.maximum_vcpu m

  abbrev pub no_memory : Quotas → Bool
  no_memory m = refuses tenant ram_gb_hours spec.memory_mb plan.maximum_memory_mb m

  abbrev pub no_storage : Quotas → Bool
  no_storage m = refuses tenant storage_gb_months spec.storage_mb plan.maximum_storage_mb m

  storage_granted :
      (m : Quotas) → is_ok (reserve_storage now tenant spec plan m).1 ≡ not (no_storage m)
  unfolding reserve_storage
  storage_granted m =
      let (m', r) = claim now tenant storage_gb_months spec.storage_mb plan.maximum_storage_mb m in
      let c =
        claim-refuses now tenant storage_gb_months spec.storage_mb plan.maximum_storage_mb m in
      then_ok r (m', ok tt) _ ∙ ground (arith, c)

  memory_granted :
      (m : Quotas)
      → is_ok (reserve_memory now tenant spec plan m).1 ≡ (not (no_memory m) && not (no_storage m))
  unfolding reserve_memory
  memory_granted m =
      let (m', r) = claim now tenant ram_gb_hours spec.memory_mb plan.maximum_memory_mb m in
      let c = claim-refuses now tenant ram_gb_hours spec.memory_mb plan.maximum_memory_mb m in
      let other = refuses-claim now tenant ram_gb_hours in
      then_ok r (reserve_storage now tenant spec plan m') _
      ∙ rw
          (
            c,
            storage_granted m',
            other storage_gb_months spec.memory_mb plan.maximum_memory_mb spec.storage_mb
                plan.maximum_storage_mb m refl,
          )
          refl

  vcpu_granted :
      (m : Quotas)
      → is_ok (reserve_vcpu now tenant spec plan m).1
        ≡ (not (no_vcpu m) && (not (no_memory m) && not (no_storage m)))
  unfolding reserve_vcpu
  vcpu_granted m =
      let (m', r) = claim now tenant vcpu_hours spec.vcpu plan.maximum_vcpu m in
      let c = claim-refuses now tenant vcpu_hours spec.vcpu plan.maximum_vcpu m in
      let other = refuses-claim now tenant vcpu_hours in
      then_ok r (reserve_memory now tenant spec plan m') _
      ∙ rw
          (
            c,
            memory_granted m',
            other ram_gb_hours spec.vcpu plan.maximum_vcpu spec.memory_mb plan.maximum_memory_mb m
                refl,
            other storage_gb_months spec.vcpu plan.maximum_vcpu spec.storage_mb
                plan.maximum_storage_mb m refl,
          )
          refl

  pub all_granted :
      (m : Quotas)
      → is_ok (reserve_all now tenant spec plan m).1
        ≡ (not (no_instances m) && (not (no_vcpu m) && (not (no_memory m) && not (no_storage m))))
  unfolding reserve_all
  all_granted m =
      let (m', r) = claim now tenant instance_count spec.instances plan.maximum_instances m in
      let c = claim-refuses now tenant instance_count spec.instances plan.maximum_instances m in
      let other = refuses-claim now tenant instance_count in
      then_ok r (reserve_vcpu now tenant spec plan m') _
      ∙ rw
          (
            c,
            vcpu_granted m',
            other vcpu_hours spec.instances plan.maximum_instances spec.vcpu plan.maximum_vcpu m
                refl,
            other ram_gb_hours spec.instances plan.maximum_instances spec.memory_mb
                plan.maximum_memory_mb m refl,
            other storage_gb_months spec.instances plan.maximum_instances spec.storage_mb
                plan.maximum_storage_mb m refl,
          )
          refl
