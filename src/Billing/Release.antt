-- ===== src/Billing/Release.antt =====
-- internal/app/billing/quota.go: what ReleaseQuota gives back.
use aurora_old.Base.{String, ◌==◌, eq_iff, Bool, true, if◌then◌else◌, is_ok, ◌≡◌, refl, sym, arith}
use aurora_old.Base.Int.{ℤ, pos, ◌+ℤ◌, ◌≤ℤ◌, max_int64}
use aurora_old.Billing.Quota.{
  MetricType, vcpu_hours, ram_gb_hours, storage_gb_months, ipv4_addresses, snapshot_count,
  backup_storage_mb, network_egress_gb, instance_count, same_metric, ResourceSpec,
}
use aurora_old.Billing.Repo.{Quotas, Catalog, same_key}
use aurora_old.Billing.Engine.{undo, reserve, release}
use aurora_old.Billing.Reserve.{usage, more, less, less-more, undo-usage}
use aurora_old.Billing.Rollback.{requested, Room, amount-le, reserve-usage}

-- What a release gives back of a metric.
abbrev pub released : ResourceSpec → MetricType → ℤ
released spec instance_count = spec.instances
released spec vcpu_hours = spec.vcpu
released spec ram_gb_hours = spec.memory_mb
released spec storage_gb_months = spec.storage_mb
released spec ipv4_addresses = spec.ipv4
released spec snapshot_count = pos 0
released spec backup_storage_mb = pos 0
released spec network_egress_gb = pos 0

abbrev pub Small : ResourceSpec → Type 0
Small spec = (k : MetricType) → released spec k ≤ℤ max_int64

abbrev pub less_if : Bool → ℤ → ℤ → ℤ
less_if b amount u = if b then less amount u else u

-- The five subtractions are one at the key's own metric.
released_once :
    (tenant t : String) (spec : ResourceSpec) (k : MetricType) (u : ℤ)
    → less_if (same_key tenant ipv4_addresses t k) spec.ipv4 (
        less_if (same_key tenant storage_gb_months t k) spec.storage_mb (
          less_if (same_key tenant ram_gb_hours t k) spec.memory_mb (
            less_if
              (same_key tenant vcpu_hours t k)
              spec.vcpu
              (less_if (same_key tenant instance_count t k) spec.instances u))))
      ≡ less_if (tenant == t) (released spec k) u
unfolding same_key less
released_once tenant t spec k u = ground arith

pub release-usage :
    (now : ℤ) (tenant : String) (spec : ResourceSpec) (m : Quotas) (t : String) (k : MetricType)
    → Small spec
    → usage t k (release now tenant spec m) ≡ less_if (tenant == t) (released spec k) (usage t k m)
unfolding release
release-usage now tenant spec m t k h =
    let m1 = undo now tenant instance_count spec.instances m in
    let m2 = undo now tenant vcpu_hours spec.vcpu m1 in
    let m3 = undo now tenant ram_gb_hours spec.memory_mb m2 in
    let m4 = undo now tenant storage_gb_months spec.storage_mb m3 in
    let u1 = undo-usage now tenant instance_count spec.instances m t k (h instance_count) in
    let u2 = undo-usage now tenant vcpu_hours spec.vcpu m1 t k (h vcpu_hours) in
    let u3 = undo-usage now tenant ram_gb_hours spec.memory_mb m2 t k (h ram_gb_hours) in
    let u4 = undo-usage now tenant storage_gb_months spec.storage_mb m3 t k (h storage_gb_months) in
    let u5 = undo-usage now tenant ipv4_addresses spec.ipv4 m4 t k (h ipv4_addresses) in
    rw (u5, u4, u3, u2, u1) (released_once tenant t spec k (usage t k m))

no_more : (u : ℤ) → more (pos 0) u ≡ u
unfolding more
no_more u = refl

no_less : (u : ℤ) → less (pos 0) u ≡ u
unfolding less
no_less u = refl

-- A usage less the amount, if the metric is the one of addresses.
abbrev pub but_addresses : MetricType → ℤ → ℤ → ℤ
but_addresses k amount u = if same_metric ipv4_addresses k then less amount u else u

give_and_take :
    (spec : ResourceSpec) (k : MetricType) (u : ℤ)
    → pos 0 ≤ℤ u
    → u +ℤ requested spec k ≤ℤ max_int64
    → less (released spec k) (more (requested spec k) u) ≡ but_addresses k spec.ipv4 u
give_and_take spec instance_count u h l = less-more spec.instances u h l
give_and_take spec vcpu_hours u h l = less-more spec.vcpu u h l
give_and_take spec ram_gb_hours u h l = less-more spec.memory_mb u h l
give_and_take spec storage_gb_months u h l = less-more spec.storage_mb u h l
give_and_take spec ipv4_addresses u h l = rw (no_more u) refl
give_and_take spec snapshot_count u h l = rw (no_more u) (no_less u)
give_and_take spec backup_storage_mb u h l = rw (no_more u) (no_less u)
give_and_take spec network_egress_gb u h l = rw (no_more u) (no_less u)

pub small :
    (tenant : String) (spec : ResourceSpec) (m : Quotas)
    → Room tenant spec m
    → spec.ipv4 ≤ℤ max_int64
    → Small spec
small tenant spec m room h k =
    let below = amount-le (usage tenant k m) (requested spec k) (room k).0 (room k).1 in
    ground arith

at_tenant :
    (tenant : String) (spec : ResourceSpec) (m : Quotas) (t : String) (k : MetricType)
    → Room tenant spec m
    → (tenant == t) ≡ true
    → less (released spec k) (more (requested spec k) (usage t k m))
      ≡ but_addresses k spec.ipv4 (usage t k m)
at_tenant tenant spec m t k room e =
    rw (sym ((eq_iff tenant t).0 e)) (give_and_take spec k (usage tenant k m) (room k).0 (room k).1)

-- Where the tenant's usages are at least 0 and leave room for the request in 64 bits, a release
-- after the granted reservation of the same request gives back what was taken, so that every usage
-- is again what it was; but for the addresses, which the reservation does not count: the tenant's
-- usage of them falls by the request's addresses, and stops at 0.
pub release-reserve :
    (now later : ℤ) (tenant : String) (spec : ResourceSpec) (c : Catalog) (m : Quotas) (t : String)
    (k : MetricType)
    → Room tenant spec m
    → spec.ipv4 ≤ℤ max_int64
    → is_ok (reserve now tenant spec c m).1 ≡ true
    → usage t k (release later tenant spec (reserve now tenant spec c m).0)
      ≡ (if tenant == t then but_addresses k spec.ipv4 (usage t k m) else usage t k m)
release-reserve now later tenant spec c m t k room h g =
    let (m', r) = reserve now tenant spec c m in
    let back = release-usage later tenant spec m' t k (small tenant spec m room h) in
    let taken = reserve-usage now tenant spec c m t k room in
    ground (arith, at_tenant tenant spec m t k room)
