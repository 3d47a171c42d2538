-- ===== src/Node/Types.antt =====
-- internal/domain/node/node.go: the hypervisor nodes and the commands to their agents. Of the
-- capabilities only the architecture is read, where it is a text; overcommit ratios are left to the
-- scheduler. A command's and a result's payload keep the values that the services write and read.
use aurora_old.Base.{ℕ, eqb, String, Bool, false, not, ◌&&◌, ◌||◌, Option, is_some, if◌then◌else◌}
use aurora_old.Base.Int.{ℤ, ltb_ℤ}
use aurora_old.Base.Assoc.{Assoc}
use aurora_old.Identity.Subject.{Resource}

pub data NodeStatus : Type 0 where
  enrolling online degraded unhealthy draining offline revoked maintenance : NodeStatus

abbrev pub status_code : NodeStatus → ℕ
status_code enrolling = 0
status_code online = 1
status_code degraded = 2
status_code unhealthy = 3
status_code draining = 4
status_code offline = 5
status_code revoked = 6
status_code maintenance = 7

abbrev pub same_status : NodeStatus → NodeStatus → Bool
same_status a b = eqb (status_code a) (status_code b)

pub record Node : Type 0 where
  pub id : String
  pub location_id : String
  pub name : String
  pub fqdn : String
  pub status : NodeStatus
  pub cert_fingerprint : String
  pub cpu_cores : ℤ
  pub memory_bytes : ℤ
  pub storage_bytes : ℤ
  pub architecture : Option String
  pub maintenance_mode : Bool
  pub drain_mode : Bool
  pub unhealthy_reason : String
  pub last_heartbeat_at : Option ℤ
  pub last_state_change_at : Option ℤ
  pub created_at : ℤ
  pub updated_at : ℤ

-- `Node.IsConnectable`
unfoldable pub is_connectable : Node → Bool
is_connectable n = not (same_status n.status revoked)

-- `Node.IsSchedulable`
unfoldable pub is_schedulable : Node → Bool
is_schedulable n =
    (same_status n.status online || same_status n.status degraded)
    && not n.maintenance_mode
    && not n.drain_mode

-- `Node.Resource`
unfoldable pub node_resource : Node → Resource
node_resource n = record {
  type_name = "node";
  id = n.id;
  owner_id = "";
  location_id = n.location_id;
}

pub data Value : Type 0 where
  text : String → Value
  int : ℤ → Value
  flag : Bool → Value
  object : Assoc String → Value

pub record Command : Type 0 where
  pub correlation_id : String
  pub command_type : String
  pub payload : Assoc Value

pub record CommandResult : Type 0 where
  pub success : Bool
  pub error_message : String
  pub payload : Assoc String

pub data NodeError : Type 0 where
  node_not_found node_already_exists node_revoked node_offline node_in_maintenance : NodeError
  enrollment_token_invalid enrollment_token_expired enrollment_token_used : NodeError
  invalid_csr cert_mismatch stream_closed command_timeout command_rejected : NodeError

pub record EnrollmentSecret : Type 0 where
  pub id : String
  pub location_id : String
  pub secret_hash : String
  pub expires_at : ℤ
  pub used_at : Option ℤ
  pub used_by_node_id : Option String

-- `EnrollmentSecret.IsValid`
unfoldable pub is_valid : ℤ → EnrollmentSecret → Bool
is_valid now e = if is_some e.used_at then false else ltb_ℤ now e.expires_at
