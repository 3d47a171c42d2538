-- ===== src/Node/Supervisor.antt =====
-- internal/app/nodehealth/supervisor.go: one evaluation of all nodes. The list that it works on is a
-- snapshot: `evaluate_all` takes it apart from the repository that it writes. The text of an age is an
-- argument; of the events and audit records, kept the last one first, the type and the node are.
use Prim.Native.String.{◌++◌}
use aurora_old.Base.{
  ℕ, suc, ◌*◌, ◌^◌, leb, String, Bool, true, not, ◌&&◌, ◌||◌, Option, none, some, List, [], ◌∷◌,
  if◌then◌else◌, ok, err,
}
use aurora_old.Base.Int.{ℤ, pos, ltb_ℤ, sub_time}
use aurora_old.Base.Assoc.{Assoc, lookup, insert, erase}
use aurora_old.Node.Types.{
  Node, NodeStatus, enrolling, online, degraded, unhealthy, draining, offline, revoked, maintenance,
  same_status,
}
use aurora_old.Node.Repo.{NodeStore, update_health_state}

abbrev pub seconds : ℕ → ℤ
seconds n = pos (n * 10 ^ 9)

-- `checkInterval`, `staleLimit` and `unhealthyLimit`; the first is for the ticker alone.
abbrev pub stale_limit : ℤ
stale_limit = seconds 15

abbrev pub unhealthy_limit : ℤ
unhealthy_limit = seconds 35

pub record Supervision : Type 0 where
  pub store : NodeStore
  pub missed : Assoc ℕ
  pub events : List (String × String)
  pub audit_logs : List (String × String)

abbrev pub status_text : NodeStatus → String
status_text enrolling = "enrolling"
status_text online = "online"
status_text degraded = "degraded"
status_text unhealthy = "unhealthy"
status_text draining = "draining"
status_text offline = "offline"
status_text revoked = "revoked"
status_text maintenance = "maintenance"

unfoldable pub event_type : NodeStatus → NodeStatus → String
event_type old new =
    if same_status new online && not (same_status old online)
    then "node.recovered"
    else "node." ++ status_text new

-- `transitionNode`; publisher and audit log are set.
unfoldable pub transition_node : ℤ → Node → NodeStatus → String → Supervision → Supervision
transition_node now n target reason s =
    let (st, r) = update_health_state now n.id target reason s.store in
    elim r [
      | err e ↦ record s { store = st }
      | ok _ ↦ record s {
        store = st;
        events = (event_type n.status target, n.id) ∷ s.events;
        audit_logs = (event_type n.status target, n.id) ∷ s.audit_logs;
      }
    ]

-- The time since the last heartbeat, or since the zero time.
unfoldable pub age_of : ℤ → Node → ℤ
age_of now n = elim n.last_heartbeat_at [ none ↦ sub_time now (pos 0) | some t ↦ sub_time now t ]

unfoldable pub is_stale : ℤ → Node → Bool
is_stale now n = elim n.last_heartbeat_at [
  | none ↦ true
  | some t ↦ ltb_ℤ stale_limit (age_of now n)
]

unfoldable pub is_skipped : Node → Bool
is_skipped n =
    same_status n.status revoked || (same_status n.status enrolling || n.maintenance_mode)

abbrev pub count_of : Option ℕ → ℕ
count_of none = 0
count_of (some k) = k

abbrev pub missed_count : String → Assoc ℕ → ℕ
missed_count id m = count_of (lookup id m)

-- What the state machine asks for: the status that the node is to have, if it is another.
unfoldable pub stale_target : ℤ → ℕ → Node → Option NodeStatus
stale_target now missed n =
    if ltb_ℤ unhealthy_limit (age_of now n) || leb 3 missed
    then (if not (same_status n.status unhealthy) then some unhealthy else none)
    else if leb 2 missed
    then (if not (same_status n.status degraded) && not (same_status n.status unhealthy)
        then some degraded
        else none)
    else none

unfoldable pub fresh_target : Node → Option NodeStatus
fresh_target n =
    if same_status n.status unhealthy || same_status n.status degraded
    then (if not n.drain_mode then some online else none)
    else none

abbrev pub moved :
    (ℤ → NodeStatus → String) → ℤ → Node → Option NodeStatus → Supervision → Supervision
moved reason now n none s = s
moved reason now n (some t) s = transition_node now n t (reason (age_of now n) t) s

unfoldable pub evaluate_node : (ℤ → NodeStatus → String) → ℤ → Node → Supervision → Supervision
evaluate_node reason now n s =
    if is_skipped n
    then record s { missed = erase n.id s.missed }
    else if is_stale now n
    then moved reason now n (stale_target now (suc (missed_count n.id s.missed)) n)
        (record s { missed = insert n.id (suc (missed_count n.id s.missed)) s.missed })
    else moved reason now n (fresh_target n) (record s { missed = insert n.id 0 s.missed })

abbrev pub evaluate_all : (ℤ → NodeStatus → String) → ℤ → Assoc Node → Supervision → Supervision
evaluate_all reason now [] s = s
evaluate_all reason now ((k, n) ∷ rest) s =
    evaluate_all reason now rest (evaluate_node reason now n s)

-- `evaluateNodes`, where nothing comes between the list and the writes.
unfoldable pub evaluate_nodes : (ℤ → NodeStatus → String) → ℤ → Supervision → Supervision
evaluate_nodes reason now s = evaluate_all reason now s.store.nodes s
