-- ===== src/Billing/Rollback.antt =====
-- internal/app/billing/quota.go: a reservation of several metrics takes all of them or none.
use aurora_old.Base.{
  String, ◌==◌, true, false, if◌then◌else◌, Result, ok, err, ◌≡◌, ◌∙◌, refl, sym, inl, inr,
  Result-cases, arith,
}
use aurora_old.Base.Int.{+ℤ_parts, ℤ, pos, ◌+ℤ◌, ◌≤ℤ◌, max_int64}
use aurora_old.Billing.Quota.{
  MetricType, vcpu_hours, ram_gb_hours, storage_gb_months, ipv4_addresses, snapshot_count,
  backup_storage_mb, network_egress_gb, instance_count, same_metric, BillingError, ResourceSpec,
  Plan,
}
use aurora_old.Billing.Repo.{Quotas, Catalog, same_key, same_key_eq}
use aurora_old.Billing.Engine.{
  claim, undo, reserve_all, reserve_vcpu, reserve_memory, reserve_storage, reserve, get_tenant_plan,
}
use aurora_old.Billing.Reserve.{usage, more, less, more_if, less-more, claim-usage, undo-usage}

abbrev after {ℓ} : {A : Type ℓ} → Result BillingError (Unit {0}) → A → A → A
after (ok _) a b = a
after (err e) a b = b

-- A key stands for one metric.
one_key :
    (tenant t : String) (j i k : MetricType)
    → same_metric i j ≡ false
    → same_key tenant j t k ≡ true
    → same_key tenant i t k ≡ false
unfolding same_key
one_key tenant t j i k h e =
    let (_, y) = same_key_eq tenant t j k e in
    let h' : same_metric i k ≡ false = rw (sym y) h in ground arith

module _ (now : ℤ) (tenant : String) (spec : ResourceSpec) (plan : Plan) (t : String)
    (k : MetricType) (inst : spec.instances ≤ℤ max_int64) (cpu : spec.vcpu ≤ℤ max_int64)
    (mem : spec.memory_mb ≤ℤ max_int64) where
  abbrev less_if : MetricType → ℤ → ℤ → ℤ
  less_if j amount u = if same_key tenant j t k then less amount u else u

  -- The usage at the key where the reservation, begun with this metric, is granted or refused.
  storage-usage :
      (m : Quotas)
      → let (m', r) = reserve_storage now tenant spec plan m in
        usage t k m'
        ≡ after r
            (more_if r (same_key tenant storage_gb_months t k) spec.storage_mb (usage t k m))
            (less_if ram_gb_hours spec.memory_mb
              (less_if vcpu_hours spec.vcpu (less_if instance_count spec.instances (usage t k m))))
  unfolding reserve_storage
  storage-usage m =
      let (m', r) = claim now tenant storage_gb_months spec.storage_mb plan.maximum_storage_mb m in
      let c =
        claim-usage now tenant storage_gb_months spec.storage_mb plan.maximum_storage_mb m t k in
      let m1 = undo now tenant instance_count spec.instances m' in
      let m2 = undo now tenant vcpu_hours spec.vcpu m1 in
      let u1 = undo-usage now tenant instance_count spec.instances m' t k inst in
      let u2 = undo-usage now tenant vcpu_hours spec.vcpu m1 t k cpu in
      let u3 = undo-usage now tenant ram_gb_hours spec.memory_mb m2 t k mem in ground arith

  -- The requested amount fits on top of the usage.
  abbrev Fits : MetricType → ℤ → Quotas → Type 0
  Fits j amount m =
      same_key tenant j t k ≡ true → (pos 0 ≤ℤ usage t k m) × (usage t k m +ℤ amount ≤ℤ max_int64)

  memory-usage :
      (m : Quotas)
      → Fits ram_gb_hours spec.memory_mb m
      → let (m', r) = reserve_memory now tenant spec plan m in
        usage t k m'
        ≡ after r
            (more_if r
              (same_key tenant storage_gb_months t k)
              spec.storage_mb
              (more_if r (same_key tenant ram_gb_hours t k) spec.memory_mb (usage t k m)))
            (less_if vcpu_hours spec.vcpu (less_if instance_count spec.instances (usage t k m)))
  unfolding reserve_memory
  memory-usage m f =
      let (m', r) = claim now tenant ram_gb_hours spec.memory_mb plan.maximum_memory_mb m in
      let c = claim-usage now tenant ram_gb_hours spec.memory_mb plan.maximum_memory_mb m t k in
      let s = storage-usage m' in
      let m1 = undo now tenant instance_count spec.instances m' in
      let u1 = undo-usage now tenant instance_count spec.instances m' t k inst in
      let u2 = undo-usage now tenant vcpu_hours spec.vcpu m1 t k cpu in
      ground (
        arith,
        less-more spec.memory_mb (usage t k m),
        one_key tenant t ram_gb_hours vcpu_hours k refl,
        one_key tenant t ram_gb_hours instance_count k refl,
      )

  vcpu-usage :
      (m : Quotas)
      → Fits ram_gb_hours spec.memory_mb m
      → Fits vcpu_hours spec.vcpu m
      → let (m', r) = reserve_vcpu now tenant spec plan m in
        usage t k m'
        ≡ after r
            (more_if r (same_key tenant storage_gb_months t k) spec.storage_mb (
              more_if r
                (same_key tenant ram_gb_hours t k)
                spec.memory_mb
                (more_if r (same_key tenant vcpu_hours t k) spec.vcpu (usage t k m))))
            (less_if instance_count spec.instances (usage t k m))
  unfolding reserve_vcpu
  vcpu-usage m f g =
      let (m', r) = claim now tenant vcpu_hours spec.vcpu plan.maximum_vcpu m in
      let c = claim-usage now tenant vcpu_hours spec.vcpu plan.maximum_vcpu m t k in
      let s = memory-usage m' in
      let u1 = undo-usage now tenant instance_count spec.instances m' t k inst in
      ground (
        arith,
        less-more spec.vcpu (usage t k m),
        one_key tenant t ram_gb_hours vcpu_hours k refl,
        one_key tenant t vcpu_hours instance_count k refl,
      )

  all-usage :
      (m : Quotas)
      → Fits ram_gb_hours spec.memory_mb m
      → Fits vcpu_hours spec.vcpu m
      → Fits instance_count spec.instances m
      → let (m', r) = reserve_all now tenant spec plan m in
        usage t k m'
        ≡ more_if r (same_key tenant storage_gb_months t k) spec.storage_mb (
            more_if r (same_key tenant ram_gb_hours t k) spec.memory_mb (
              more_if r
                (same_key tenant vcpu_hours t k)
                spec.vcpu
                (more_if r (same_key tenant instance_count t k) spec.instances (usage t k m))))
  unfolding reserve_all
  all-usage m f g h =
      let (m', r) = claim now tenant instance_count spec.instances plan.maximum_instances m in
      let c = claim-usage now tenant instance_count spec.instances plan.maximum_instances m t k in
      let s = vcpu-usage m' in
      ground (
        arith,
        less-more spec.instances (usage t k m),
        one_key tenant t ram_gb_hours instance_count k refl,
        one_key tenant t vcpu_hours instance_count k refl,
      )

-- What a request asks of a metric.
abbrev pub requested : ResourceSpec → MetricType → ℤ
requested spec instance_count = spec.instances
requested spec vcpu_hours = spec.vcpu
requested spec ram_gb_hours = spec.memory_mb
requested spec storage_gb_months = spec.storage_mb
requested spec ipv4_addresses = pos 0
requested spec snapshot_count = pos 0
requested spec backup_storage_mb = pos 0
requested spec network_egress_gb = pos 0

-- Every usage is at least 0 and leaves room for the request in a signed 64-bit number.
abbrev pub Room : String → ResourceSpec → Quotas → Type 0
Room tenant spec m =
    (k : MetricType)
    → (pos 0 ≤ℤ usage tenant k m) × (usage tenant k m +ℤ requested spec k ≤ℤ max_int64)

pub amount-le : (u a : ℤ) → pos 0 ≤ℤ u → u +ℤ a ≤ℤ max_int64 → a ≤ℤ max_int64
amount-le u a h k = omega (arith, +ℤ_parts u a)

room-fits :
    (tenant : String) (spec : ResourceSpec) (m : Quotas) (t : String) (j k : MetricType)
    → Room tenant spec m
    → same_key tenant j t k ≡ true
    → (pos 0 ≤ℤ usage t k m) × (usage t k m +ℤ requested spec j ≤ℤ max_int64)
room-fits tenant spec m t j k room h =
    let (e, f) = same_key_eq tenant t j k h in rw (sym e, sym f) (room j)

-- The four additions of a granted request are one at the key's own metric.
requested_once :
    (r : Result BillingError (Unit {0})) (tenant t : String) (spec : ResourceSpec) (k : MetricType)
    (u : ℤ)
    → more_if r (same_key tenant storage_gb_months t k) spec.storage_mb (
        more_if r (same_key tenant ram_gb_hours t k) spec.memory_mb (
          more_if r
            (same_key tenant vcpu_hours t k)
            spec.vcpu
            (more_if r (same_key tenant instance_count t k) spec.instances u)))
      ≡ more_if r (tenant == t) (requested spec k) u
unfolding same_key more
requested_once r tenant t spec k u = ground arith

reserve_all-usage :
    (now : ℤ) (tenant : String) (spec : ResourceSpec) (plan : Plan) (m : Quotas) (t : String)
    (k : MetricType)
    → Room tenant spec m
    → let (m', r) = reserve_all now tenant spec plan m in
      usage t k m' ≡ more_if r (tenant == t) (requested spec k) (usage t k m)
reserve_all-usage now tenant spec plan m t k room =
    let below =
      λ (j : MetricType). amount-le (usage tenant j m) (requested spec j) (room j).0 (room j).1 in
    all-usage now tenant spec plan t k (below instance_count) (below vcpu_hours)
      (below ram_gb_hours) m (room-fits tenant spec m t ram_gb_hours k room)
      (room-fits tenant spec m t vcpu_hours k room)
      (room-fits tenant spec m t instance_count k room)
    ∙ requested_once (reserve_all now tenant spec plan m).1 tenant t spec k (usage t k m)

-- Where the tenant's usages are at least 0 and leave room for the request in 64 bits, a reservation
-- takes the requested amount of every metric or, where it is refused, none of any: the usage at each
-- tenant and metric is then what it was before the call, though some quotas were taken and given
-- back.
pub reserve-usage :
    (now : ℤ) (tenant : String) (spec : ResourceSpec) (c : Catalog) (m : Quotas) (t : String)
    (k : MetricType)
    → Room tenant spec m
    → let (m', r) = reserve now tenant spec c m in
      usage t k m' ≡ more_if r (tenant == t) (requested spec k) (usage t k m)
unfolding reserve
reserve-usage now tenant spec c m t k room = elim (Result-cases (get_tenant_plan tenant c)) [
  | inl h ↦ rw h.1 (reserve_all-usage now tenant spec h.0 m t k room)
  | inr h ↦ rw h.1 refl
]
