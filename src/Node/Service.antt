-- ===== src/Node/Service.antt =====
-- internal/app/node/service.go: enrollment, the streams of the agents, and the switches of an operator. The
-- connections are those of connection_manager.go, by the node's identifier. Hashing, certificates and
-- the registration's clock are arguments; the audit records keep the action and the node.
use aurora_old.Base.{
  String, ◌==◌, Bool, false, not, Option, none, some, List, ◌∷◌, is_some, if◌then◌else◌, Result, ok,
  err, ◌>>=◌, ◌>>◌, fail_if,
}
use aurora_old.Base.Int.{ℤ, pos}
use aurora_old.Base.Assoc.{Assoc, insert, erase, lookup}
use aurora_old.Node.Types.{
  Node, enrolling, online, offline, revoked, maintenance, same_status, NodeError, node_revoked,
  node_offline, enrollment_token_invalid, enrollment_token_expired, enrollment_token_used,
  invalid_csr, cert_mismatch, EnrollmentSecret, is_valid,
}
use aurora_old.Node.Repo.{
  NodeStore, create_node, node_by_id, update_status, update_drain_mode, update_heartbeat,
  update_maintenance_mode, revoke, secret_by_hash, mark_used,
}

pub record Registry : Type 0 where
  pub store : NodeStore
  pub connections : Assoc ℤ
  pub audit_logs : List (String × String)

abbrev pub logged : String → String → Registry → Registry
logged action id r = record r { audit_logs = (action, id) ∷ r.audit_logs }

-- The node that a call is about, if it is not revoked.
unfoldable pub active : String → Registry → Result NodeError Node
active id r = do
  n ← node_by_id id r.store
  fail_if (same_status n.status revoked) node_revoked
  ok n

abbrev usable_secret : ℤ → Result NodeError EnrollmentSecret → Result NodeError EnrollmentSecret
usable_secret now (err e) = err enrollment_token_invalid
usable_secret now (ok s) =
    if is_valid now s
    then ok s
    else if is_some s.used_at
    then err enrollment_token_used
    else err enrollment_token_expired

-- What an agent presents, with its certificate's fingerprint where the signing succeeds.
pub record Enrollment : Type 0 where
  pub token_hash : String
  pub node_name : String
  pub fqdn : String
  pub fingerprint : Option String
  pub architecture : Option String

unfoldable pub enrolled_node : ℤ → String → String → Enrollment → EnrollmentSecret → Node
enrolled_node now new_id fp q s = record {
  id = new_id;
  location_id = s.location_id;
  name = q.node_name;
  fqdn = q.fqdn;
  status = enrolling;
  cert_fingerprint = fp;
  cpu_cores = pos 0;
  memory_bytes = pos 0;
  storage_bytes = pos 0;
  architecture = q.architecture;
  maintenance_mode = false;
  drain_mode = false;
  unhealthy_reason = "";
  last_heartbeat_at = none;
  last_state_change_at = none;
  created_at = now;
  updated_at = now;
}

abbrev pub with_mark :
    String → Registry → NodeStore × Result NodeError (Unit {0}) → Registry × Result NodeError String
with_mark new_id r (st, err e) = (record r { store = st }, err e)
with_mark new_id r (st, ok _) = (logged "node.enrolled" new_id (record r { store = st }), ok new_id)

abbrev pub with_node :
    ℤ
    → String
    → EnrollmentSecret
    → Registry
    → NodeStore × Result NodeError (Unit {0})
    → Registry × Result NodeError String
with_node now new_id s r (st, err e) = (record r { store = st }, err e)
with_node now new_id s r (st, ok _) = with_mark new_id r (mark_used now s.id new_id st)

abbrev pub with_secret :
    ℤ
    → String
    → Enrollment
    → Registry
    → Result NodeError EnrollmentSecret
    → Registry × Result NodeError String
with_secret now new_id q r (err e) = (r, err e)
with_secret now new_id q r (ok s) = elim q.fingerprint [
  | none ↦ (r, err invalid_csr)
  | some fp ↦ with_node now new_id s r (create_node (enrolled_node now new_id fp q s) r.store)
]

-- `EnrollNode`, by the node's identifier.
unfoldable pub enroll_node : ℤ → String → Enrollment → Registry → Registry × Result NodeError String
enroll_node now new_id q r =
    with_secret now new_id q r (usable_secret now (secret_by_hash q.token_hash r.store))

-- `AuthenticateNodeCertificate`, of a certificate that the root has signed for this node.
unfoldable pub authenticate : String → String → Registry → Result NodeError Node
authenticate id fp r = do
  n ← active id r
  fail_if (not (n.cert_fingerprint == fp)) cert_mismatch
  ok n

abbrev pub when_active :
    (Node → Registry × Result NodeError (Unit {0}))
    → Registry
    → Result NodeError Node
    → Registry × Result NodeError (Unit {0})
when_active f r (err e) = (r, err e)
when_active f r (ok n) = f n

abbrev pub stored :
    String
    → String
    → Registry
    → NodeStore × Result NodeError (Unit {0})
    → Registry × Result NodeError (Unit {0})
stored action id r (st, err e) = (record r { store = st }, err e)
stored action id r (st, ok _) = (logged action id (record r { store = st }), ok tt)

unfoldable pub connected : ℤ → String → Registry → Node → Registry × Result NodeError (Unit {0})
connected now id r n = (
  logged "node.gateway.connected" id (record r {
    connections = insert id now r.connections;
    store = (update_status now id (if n.maintenance_mode then maintenance else online) r.store).0;
  }),
  ok tt,
)

-- `OnStreamConnected`
unfoldable pub on_stream_connected : ℤ → String → Registry → Registry × Result NodeError (Unit {0})
on_stream_connected now id r = when_active (connected now id r) r (active id r)

abbrev pub disconnected : ℤ → String → Result NodeError Node → NodeStore → NodeStore
disconnected now id (err e) s = s
disconnected now id (ok n) s = (update_status now id offline s).0

unfoldable pub on_stream_disconnected : ℤ → String → Registry → Registry
on_stream_disconnected now id r = logged "node.gateway.disconnected" id (record r {
  connections = erase id r.connections;
  store = disconnected now id (active id r) r.store;
})

-- `ProcessHeartbeat`
unfoldable pub process_heartbeat :
    ℤ → String → Option (Option String) → Registry → Registry × Result NodeError (Unit {0})
process_heartbeat now id caps r =
    when_active
      (λ n. let (st, e) = update_heartbeat now id caps r.store in (record r { store = st }, e)) r
      (active id r)

unfoldable pub toggle_maintenance :
    ℤ → String → Bool → Registry → Registry × Result NodeError (Unit {0})
toggle_maintenance now id on r =
    when_active
      (λ n. stored "node.maintenance.updated" id r (update_maintenance_mode now id on r.store)) r
      (active id r)

unfoldable pub toggle_drain_mode :
    ℤ → String → Bool → Registry → Registry × Result NodeError (Unit {0})
toggle_drain_mode now id drain r =
    when_active (λ n. stored "node.drain.updated" id r (update_drain_mode now id drain r.store)) r
      (active id r)

abbrev pub cut_off :
    String
    → NodeStore × Result NodeError (Unit {0})
    → Registry
    → Registry × Result NodeError (Unit {0})
cut_off id (st, err e) r = (record r { store = st }, err e)
cut_off id (st, ok _) r = (
  logged "node.revoked" id (record r { store = st; connections = erase id r.connections }),
  ok tt,
)

unfoldable pub revoke_node : ℤ → String → Registry → Registry × Result NodeError (Unit {0})
revoke_node now id r = cut_off id (revoke now id r.store) r

-- The checks of SendCommand and of DispatchCommand before a command is on its stream.
unfoldable pub may_send : String → Registry → Result NodeError (Unit {0})
may_send id r = do n ← active id r; fail_if (not (is_some (lookup id r.connections))) node_offline
