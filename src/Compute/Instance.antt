-- ===== src/Compute/Instance.antt =====
-- internal/domain/compute/instance.go and errors.go: guests, their states and the package's errors.
-- `config`, a map of any values, is a map to their texts.
use aurora_old.Base.{ℕ, eqb, Bool, String}
use aurora_old.Base.Int.{ℤ}
use aurora_old.Base.Assoc.{Assoc}
use aurora_old.Identity.Subject.{IdentityError, Resource}
use aurora_old.Billing.Quota.{BillingError}

pub data InstanceType : Type 0 where
  container virtual_machine : InstanceType

abbrev pub type_text : InstanceType → String
type_text container = "container"
type_text virtual_machine = "virtual-machine"

pub data Status : Type 0 where
  pending creating running stopped restarting frozen error deleting deleted : Status

abbrev pub status_text : Status → String
status_text pending = "pending"
status_text creating = "creating"
status_text running = "running"
status_text stopped = "stopped"
status_text restarting = "restarting"
status_text frozen = "frozen"
status_text error = "error"
status_text deleting = "deleting"
status_text deleted = "deleted"

abbrev pub status_code : Status → ℕ
status_code pending = 0
status_code creating = 1
status_code running = 2
status_code stopped = 3
status_code restarting = 4
status_code frozen = 5
status_code error = 6
status_code deleting = 7
status_code deleted = 8

abbrev pub same_status : Status → Status → Bool
same_status a b = eqb (status_code a) (status_code b)

pub record Instance : Type 0 where
  pub id : String
  pub user_id : String
  pub node_id : String
  pub name : String
  pub instance_type : InstanceType
  pub status : Status
  pub cpu_cores : ℤ
  pub memory_bytes : ℤ
  pub storage_bytes : ℤ
  pub image : String
  pub ipv4_address : String
  pub ipv6_address : String
  pub config : Assoc String
  pub created_at : ℤ
  pub updated_at : ℤ

-- `Instance.Resource`
unfoldable pub resource : Instance → Resource
resource i = record { type_name = "instance"; id = i.id; owner_id = i.user_id; location_id = "" }

-- The errors of the package, and those that the service passes on or wraps.
pub data ComputeError : Type 0 where
  instance_not_found instance_already_exists instance_running instance_stopped : ComputeError
  unsupported_instance_type invalid_spec hypervisor_unavailable : ComputeError
  instance_operation_failed compute_quota_exceeded invalid_power_action : ComputeError
  invalid_path file_not_found file_too_large backup_not_found snapshot_not_found : ComputeError
  denied : IdentityError → ComputeError
  over_quota : BillingError → ComputeError
  node_not_found node_not_schedulable scheduling_failed no_online_node : ComputeError
  invalid_template insufficient_memory insufficient_disk no_compatible_image : ComputeError
  invalid_cloud_init : ComputeError
