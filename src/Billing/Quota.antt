-- ===== src/Billing/Quota.antt =====
-- internal/domain/billing: metrics, quotas and resource requests. The other fields of a plan and of a
-- subscription are not read by the quota engine.
use aurora_old.Base.{ℕ, eqb, String, Bool, true, ◌||◌, if◌then◌else◌, Result, ok, err}
use aurora_old.Base.Int.{ℤ, pos, ◌+ℤ◌, ◌-ℤ◌, ltb_ℤ, leb_ℤ, int64}

pub data BillingError : Type 0 where
  plan_not_found plan_inactive plan_slug_exists invalid_plan_spec : BillingError
  subscription_not_found subscription_already_exists invalid_subscription : BillingError
  quota_exceeded quota_not_found invoice_not_found invalid_invoice_state : BillingError
  duplicate_idempotency_key payment_failed : BillingError

pub data MetricType : Type 0 where
  vcpu_hours ram_gb_hours storage_gb_months ipv4_addresses : MetricType
  snapshot_count backup_storage_mb network_egress_gb instance_count : MetricType

abbrev pub metric_code : MetricType → ℕ
metric_code vcpu_hours = 0
metric_code ram_gb_hours = 1
metric_code storage_gb_months = 2
metric_code ipv4_addresses = 3
metric_code snapshot_count = 4
metric_code backup_storage_mb = 5
metric_code network_egress_gb = 6
metric_code instance_count = 7

abbrev pub same_metric : MetricType → MetricType → Bool
same_metric a b = eqb (metric_code a) (metric_code b)

pub record Quota : Type 0 where
  pub tenant_id : String
  pub metric : MetricType
  pub limit : ℤ
  pub current_usage : ℤ
  pub reset_period : String
  pub updated_at : ℤ

-- `Quota.Available`
unfoldable pub available : Quota → ℤ
available q =
    if leb_ℤ q.limit (pos 0)
    then pos 0
    else if ltb_ℤ (int64 (q.limit -ℤ q.current_usage)) (pos 0)
    then pos 0
    else int64 (q.limit -ℤ q.current_usage)

-- `Quota.CanAllocate`
unfoldable pub can_allocate : Quota → ℤ → Bool
can_allocate q delta =
    if leb_ℤ delta (pos 0) then true else leb_ℤ (int64 (q.current_usage +ℤ delta)) q.limit

pub record ResourceSpec : Type 0 where
  pub instances : ℤ
  pub vcpu : ℤ
  pub memory_mb : ℤ
  pub storage_mb : ℤ
  pub ipv4 : ℤ
  pub snapshots : ℤ
  pub backups : ℤ

-- `ResourceSpec.Validate`
unfoldable pub validate_spec : ResourceSpec → Result BillingError (Unit {0})
validate_spec s =
    if ltb_ℤ s.instances (pos 0)
      || ltb_ℤ s.vcpu (pos 0)
      || ltb_ℤ s.memory_mb (pos 0)
      || ltb_ℤ s.storage_mb (pos 0)
      || ltb_ℤ s.ipv4 (pos 0)
    then err invalid_plan_spec
    else ok tt

pub record Plan : Type 0 where
  pub id : String
  pub slug : String
  pub maximum_instances : ℤ
  pub maximum_vcpu : ℤ
  pub maximum_memory_mb : ℤ
  pub maximum_storage_mb : ℤ
  pub active : Bool

pub record Subscription : Type 0 where
  pub id : String
  pub tenant_id : String
  pub plan_id : String
