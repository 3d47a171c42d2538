-- ===== src/Node/Tests.antt =====
-- One node, silent since its last heartbeat.
use aurora_old.Base.{String, true, false, none, some, List, [], ◌∷◌, err, ◌≡◌, refl}
use aurora_old.Base.Int.{ℤ, pos, sub_time, ◌-ℤ◌}
use aurora_old.Base.Assoc.{lookup}
use aurora_old.Node.Types.{
  Node, NodeStatus, online, unhealthy, revoked, node_revoked, is_connectable,
}
use aurora_old.Node.Repo.{NodeStore, revoke}
use aurora_old.Node.Service.{Registry, may_send}
use aurora_old.Node.Supervisor.{
  Supervision, seconds, evaluate_all, evaluate_nodes, is_skipped, is_stale, age_of,
}
use aurora_old.Node.Health.{evaluate_nodes-silent}
use aurora_old.Node.Revocation.{
  connect_step, maintenance_step, supervise_step, NodeStep, node_steps, may_send-revoked,
}
use aurora_old.Node.Race.{evaluate_all-revoked}

abbrev host : Node
host = record {
  id = "n1";
  location_id = "";
  name = "n1";
  fqdn = "n1.local";
  status = online;
  cert_fingerprint = "";
  cpu_cores = pos 8;
  memory_bytes = pos 0;
  storage_bytes = pos 0;
  architecture = none;
  maintenance_mode = false;
  drain_mode = false;
  unhealthy_reason = "";
  last_heartbeat_at = some (seconds 100);
  last_state_change_at = none;
  created_at = pos 0;
  updated_at = pos 0;
}

abbrev store_of : Node → NodeStore
store_of n = record {
  nodes = ("n1", n) ∷ [];
  nodes_by_fqdn = [];
  nodes_by_fp = [];
  secrets = [];
  secrets_by_hash = [];
}

abbrev supervision : Supervision
supervision = record { store = store_of host; missed = []; events = []; audit_logs = [] }

abbrev why : ℤ → NodeStatus → String
why age t = "late"

evaluate_nodes-silent_example :
    let s =
      evaluate_nodes why
        (seconds 126)
        (evaluate_nodes why (seconds 121) (evaluate_nodes why (seconds 116) supervision)) in
    (x : Node) × (lookup "n1" s.store.nodes ≡ some x) × (x.status ≡ unhealthy)
unfolding lookup is_skipped is_stale age_of sub_time ◌-ℤ◌
evaluate_nodes-silent_example =
    evaluate_nodes-silent why (seconds 116) (seconds 121) (seconds 126) supervision "n1" host
      ((refl, tt), (refl, tt)) refl refl refl refl refl

abbrev banned : Node
banned = record host { status = revoked }

abbrev registry : Registry
registry = record { store = store_of banned; connections = []; audit_logs = [] }

abbrev steps : List NodeStep
steps =
    connect_step (pos 1) "n1"
    ∷ maintenance_step (pos 2) "n1" false
    ∷ supervise_step why (seconds 200) []
    ∷ []

may_send-revoked_example : may_send "n1" (node_steps steps registry) ≡ err node_revoked
unfolding lookup
may_send-revoked_example =
    may_send-revoked "n1" steps registry banned ((refl, tt), (refl, tt)) refl refl
      (tt, (tt, (tt, tt)))

evaluate_all-revoked_example :
    let s =
      evaluate_all why
        (seconds 140)
        supervision.store.nodes
        (record supervision { store = (revoke (seconds 140) "n1" supervision.store).0 }) in
    (x : Node) × (lookup "n1" s.store.nodes ≡ some x)
    × (x.status ≡ unhealthy)
    × (is_connectable x ≡ true)
unfolding lookup is_skipped is_stale age_of sub_time ◌-ℤ◌
evaluate_all-revoked_example =
    evaluate_all-revoked why (seconds 140) (seconds 140) supervision "n1" host
      ((refl, tt), (refl, tt)) refl refl refl refl refl
