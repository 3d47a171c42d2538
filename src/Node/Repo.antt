-- ===== src/Node/Repo.antt =====
-- internal/infra/memory/node_repo.go: the nodes and their enrollment secrets. The maps by domain name,
-- fingerprint and hash point to the objects of the maps by identifier; they hold identifiers here,
-- since identifiers are fresh and nothing is ever removed. The mutex makes each call one step.
use aurora_old.Base.{
  String, ◌==◌, Bool, not, ◌&&◌, Option, none, some, List, map, is_some, if◌then◌else◌, Result, ok,
  err,
}
use aurora_old.Base.Int.{ℤ}
use aurora_old.Base.Assoc.{Assoc, lookup, insert}
use aurora_old.Node.Types.{
  Node, NodeStatus, online, draining, revoked, maintenance, same_status, NodeError, node_not_found,
  node_already_exists, enrollment_token_invalid, enrollment_token_used, EnrollmentSecret,
}

pub record NodeStore : Type 0 where
  pub nodes : Assoc Node
  pub nodes_by_fqdn : Assoc String
  pub nodes_by_fp : Assoc String
  pub secrets : Assoc EnrollmentSecret
  pub secrets_by_hash : Assoc String

unfoldable pub create_node : Node → NodeStore → NodeStore × Result NodeError (Unit {0})
create_node n s =
    if is_some (lookup n.fqdn s.nodes_by_fqdn) then (s, err node_already_exists) else (
      record s {
        nodes = insert n.id n s.nodes;
        nodes_by_fqdn = insert n.fqdn n.id s.nodes_by_fqdn;
        nodes_by_fp =
            if not (n.cert_fingerprint == "")
            then insert n.cert_fingerprint n.id s.nodes_by_fp
            else s.nodes_by_fp;
      },
      ok tt,
    )

abbrev found : Option Node → Result NodeError Node
found none = err node_not_found
found (some n) = ok n

abbrev referred : Option String → NodeStore → Result NodeError Node
referred none s = err node_not_found
referred (some id) s = found (lookup id s.nodes)

unfoldable pub node_by_id : String → NodeStore → Result NodeError Node
node_by_id id s = found (lookup id s.nodes)

unfoldable pub node_by_fqdn : String → NodeStore → Result NodeError Node
node_by_fqdn fqdn s = referred (lookup fqdn s.nodes_by_fqdn) s

unfoldable pub node_by_fingerprint : String → NodeStore → Result NodeError Node
node_by_fingerprint fp s = referred (lookup fp s.nodes_by_fp) s

unfoldable pub list_nodes : NodeStore → List Node
list_nodes s = map (λ e. e.1) s.nodes

-- The writes, each to the object that the identifier finds.
abbrev pub changed : (Node → Node) → String → NodeStore → NodeStore × Result NodeError (Unit {0})
changed f id s = elim (lookup id s.nodes) [
  | none ↦ (s, err node_not_found)
  | some n ↦ (record s { nodes = insert id (f n) s.nodes }, ok tt)
]

unfoldable pub with_status : ℤ → NodeStatus → Node → Node
with_status now status n = record n { status = status; updated_at = now }

unfoldable pub update_status :
    ℤ → String → NodeStatus → NodeStore → NodeStore × Result NodeError (Unit {0})
update_status now id status = changed (with_status now status) id

unfoldable pub with_health : ℤ → NodeStatus → String → Node → Node
with_health now status reason n = record n {
  status = status;
  unhealthy_reason = reason;
  last_state_change_at = some now;
  updated_at = now;
}

unfoldable pub update_health_state :
    ℤ → String → NodeStatus → String → NodeStore → NodeStore × Result NodeError (Unit {0})
update_health_state now id status reason = changed (with_health now status reason) id

unfoldable pub with_drain : ℤ → Bool → Node → Node
with_drain now drain n = record n {
  drain_mode = drain;
  status =
      if drain && same_status n.status online
      then draining
      else if not drain && same_status n.status draining
      then online
      else n.status;
  updated_at = now;
}

unfoldable pub update_drain_mode :
    ℤ → String → Bool → NodeStore → NodeStore × Result NodeError (Unit {0})
update_drain_mode now id drain = changed (with_drain now drain) id

-- Capabilities are replaced where the agent sends some.
unfoldable pub with_heartbeat : ℤ → Option (Option String) → Node → Node
with_heartbeat now caps n = record n {
  last_heartbeat_at = some now;
  architecture = elim caps [ none ↦ n.architecture | some a ↦ a ];
  updated_at = now;
}

unfoldable pub update_heartbeat :
    ℤ → String → Option (Option String) → NodeStore → NodeStore × Result NodeError (Unit {0})
update_heartbeat now id caps = changed (with_heartbeat now caps) id

unfoldable pub with_maintenance : ℤ → Bool → Node → Node
with_maintenance now on n = record n {
  maintenance_mode = on;
  status = if on then maintenance else online;
  updated_at = now;
}

unfoldable pub update_maintenance_mode :
    ℤ → String → Bool → NodeStore → NodeStore × Result NodeError (Unit {0})
update_maintenance_mode now id on = changed (with_maintenance now on) id

unfoldable pub revoke : ℤ → String → NodeStore → NodeStore × Result NodeError (Unit {0})
revoke now id = changed (with_status now revoked) id

unfoldable pub create_secret : EnrollmentSecret → NodeStore → NodeStore
create_secret e s = record s {
  secrets = insert e.id e s.secrets;
  secrets_by_hash = insert e.secret_hash e.id s.secrets_by_hash;
}

unfoldable pub secret_by_hash : String → NodeStore → Result NodeError EnrollmentSecret
secret_by_hash hash s = elim (lookup hash s.secrets_by_hash) [
  | none ↦ err enrollment_token_invalid
  | some id ↦ elim (lookup id s.secrets) [ none ↦ err enrollment_token_invalid | some e ↦ ok e ]
]

unfoldable pub mark_used : ℤ → String → String → NodeStore → NodeStore × Result NodeError (Unit {0})
mark_used now id node s = elim (lookup id s.secrets) [
  | none ↦ (s, err enrollment_token_invalid)
  | some e ↦ if is_some e.used_at then (s, err enrollment_token_used) else (
    record s {
      secrets = insert id (record e { used_at = some now; used_by_node_id = some node }) s.secrets;
    },
    ok tt,
  )
]
