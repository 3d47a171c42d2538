-- ===== src/Node/Revocation.antt =====
-- internal/app/node/service.go and internal/app/nodehealth/supervisor.go: a revoked node stays revoked.
use aurora_old.Base.{
  ℕ, String, ◌==◌, Bool, true, false, Option, some, Option-cases, Result-cases, inl, inr, List, [],
  ◌∷◌, All, Result, ok, err, ◌≡◌, ap, refl, arith,
}
use aurora_old.Base.Int.{ℤ}
use aurora_old.Base.Assoc.{Assoc, lookup, lookup-insert, Each-insert, insert-IsMap}
use aurora_old.Node.Types.{
  Node, NodeStatus, revoked, NodeError, node_revoked, offline, EnrollmentSecret,
}
use aurora_old.Node.Repo.{
  NodeStore, create_node, changed, node_by_id, with_status, update_status, with_drain,
  update_drain_mode, with_heartbeat, update_heartbeat, with_maintenance, update_maintenance_mode,
  revoke, mark_used,
}
use aurora_old.Node.Service.{
  Registry, active, Enrollment, enrolled_node, with_secret, with_node, with_mark, enroll_node,
  connected, on_stream_connected, disconnected, on_stream_disconnected, process_heartbeat,
  when_active, stored, toggle_maintenance, toggle_drain_mode, cut_off, revoke_node, may_send,
}
use aurora_old.Node.Supervisor.{Supervision, is_skipped, evaluate_nodes}
use aurora_old.Node.Health.{pass-view, pass-IsKeyed}
use aurora_old.Node.Views.{IsKeyed}
use aurora_old.Node.Writes.{Holds, changed-Holds, revoke-Holds, active-other}

-- The steps of the registry's service, and the evaluations of the supervisor with their own counters.
pub data NodeStep : Type 0 where
  enroll_step : ℤ → String → Enrollment → NodeStep
  connect_step disconnect_step revoke_step : ℤ → String → NodeStep
  heartbeat_step : ℤ → String → Option (Option String) → NodeStep
  maintenance_step drain_step : ℤ → String → Bool → NodeStep
  supervise_step : (ℤ → NodeStatus → String) → ℤ → Assoc ℕ → NodeStep

abbrev supervised : (ℤ → NodeStatus → String) → ℤ → Assoc ℕ → NodeStore → NodeStore
supervised reason now missed st =
    (evaluate_nodes reason now
      (record { store = st; missed = missed; events = []; audit_logs = [] })).store

abbrev pub node_step : NodeStep → Registry → Registry
node_step (enroll_step now new_id q) r = (enroll_node now new_id q r).0
node_step (connect_step now id) r = (on_stream_connected now id r).0
node_step (disconnect_step now id) r = on_stream_disconnected now id r
node_step (revoke_step now id) r = (revoke_node now id r).0
node_step (heartbeat_step now id caps) r = (process_heartbeat now id caps r).0
node_step (maintenance_step now id on) r = (toggle_maintenance now id on r).0
node_step (drain_step now id drain) r = (toggle_drain_mode now id drain r).0
node_step (supervise_step reason now missed) r = record r {
  store = supervised reason now missed r.store;
}

abbrev pub node_steps : List NodeStep → Registry → Registry
node_steps [] r = r
node_steps (c ∷ cs) r = node_steps cs (node_step c r)

-- The identifier that an enrollment draws is not this one.
abbrev pub DrawsOther : String → NodeStep → Type 0
DrawsOther id (enroll_step now new_id q) = (new_id == id) ≡ false
DrawsOther id _ = Unit

when_active-Holds :
    (id other : String) (r : Registry) (f : Node → Registry × Result NodeError (Unit {0}))
    → Holds id r.store
    → ((n : Node) → (other == id) ≡ false → Holds id (f n).0.store)
    → Holds id (when_active f r (active other r)).0.store
when_active-Holds id other r f h k = elim (Result-cases (active other r)) [
  | inr (e, g) ↦ rw (g, when_active) h
  | inl (n, g) ↦ rw (g, when_active) (k n (active-other id other r h g))
]

-- A write to another node.
other-Holds :
    (f : Node → Node) (id other : String) (st : NodeStore)
    → ((n : Node) → (f n).id ≡ n.id)
    → (other == id) ≡ false
    → Holds id st
    → Holds id (changed f other st).0
other-Holds f id other st k d h = changed-Holds f id other st k (λ t. absurd (clash t d)) h
  where
    clash : {b : Bool} → b ≡ true → b ≡ false → ⊥
    clash t d = cc

stored-Holds :
    (id action other : String) (r : Registry) (x : NodeStore × Result NodeError (Unit {0}))
    → Holds id x.0
    → Holds id (stored action other r x).0.store
stored-Holds id action other r (st, ok _) h = h
stored-Holds id action other r (st, err e) h = h

cut_off-Holds :
    (id other : String) (r : Registry) (x : NodeStore × Result NodeError (Unit {0}))
    → Holds id x.0
    → Holds id (cut_off other x r).0.store
cut_off-Holds id other r (st, ok _) h = h
cut_off-Holds id other r (st, err e) h = h

revoked-skipped : (x : Node) → x.status ≡ revoked → is_skipped x ≡ true
unfolding is_skipped
revoked-skipped x u = rw u refl

supervised-Holds :
    (reason : ℤ → NodeStatus → String) (now : ℤ) (missed : Assoc ℕ) (id : String) (st : NodeStore)
    → Holds id st
    → Holds id (supervised reason now missed st)
supervised-Holds reason now missed id st (h, (x, e, u)) =
    let s : Supervision = record { store = st; missed = missed; events = []; audit_logs = [] } in
    let v = ap (λ w. w.0) (pass-view reason now s id h) in
    (pass-IsKeyed reason now s h, (x, rw (e, revoked-skipped x u) at v, u))

create_node-Holds :
    (id : String) (n : Node) (st : NodeStore)
    → (n.id == id) ≡ false
    → Holds id st
    → Holds id (create_node n st).0
unfolding create_node
create_node-Holds id n st d ((h, u), (x, e, r)) =
    elim (Option-cases (lookup n.fqdn st.nodes_by_fqdn)) [
      | inr (i, g) ↦ rw g ((h, u), (x, e, r))
      | inl g ↦ rw g (
        (Each-insert (λ i y. y.id ≡ i) n.id n st.nodes h refl, insert-IsMap n.id n st.nodes u),
        (x, ground (arith, lookup-insert n.id id n st.nodes), r),
      )
    ]

mark_used-nodes :
    (now : ℤ) (secret node : String) (st : NodeStore)
    → (mark_used now secret node st).0.nodes ≡ st.nodes
unfolding mark_used
mark_used-nodes now secret node st = elim (Option-cases (lookup secret st.secrets)) [
  | inl g ↦ ground arith
  | inr (e, g) ↦ elim (Option-cases e.used_at) [ inl k ↦ ground arith | inr (y, k) ↦ ground arith ]
]

enroll_node-Holds :
    (now : ℤ) (new_id id : String) (q : Enrollment) (r : Registry)
    → (new_id == id) ≡ false
    → Holds id r.store
    → Holds id (enroll_node now new_id q r).0.store
unfolding enroll_node enrolled_node
enroll_node-Holds now new_id id q r d h = secret _
  where
    marked :
        (x : NodeStore × Result NodeError (Unit {0}))
        → Holds id x.0
        → Holds id (with_mark new_id r x).0.store
    marked (st, ok _) k = k
    marked (st, err e) k = k

    created :
        (s : EnrollmentSecret) (x : NodeStore × Result NodeError (Unit {0}))
        → Holds id x.0
        → Holds id (with_node now new_id s r x).0.store
    created s (st, err e) k = k
    created s (st, ok _) k =
        marked (mark_used now s.id new_id st) (rw (mark_used-nodes now s.id new_id st) k)

    secret :
        (x : Result NodeError EnrollmentSecret) → Holds id (with_secret now new_id q r x).0.store
    secret (err e) = h
    secret (ok s) = elim (Option-cases q.fingerprint) [
      | inl g ↦ rw (g, with_secret) h
      | inr (fp, g) ↦
          rw (g, with_secret)
            (created s _ (create_node-Holds id (enrolled_node now new_id fp q s) r.store d h))
    ]

node_step-Holds :
    (id : String) (c : NodeStep) (r : Registry)
    → DrawsOther id c
    → Holds id r.store
    → Holds id (node_step c r).store
unfolding on_stream_connected connected on_stream_disconnected revoke_node process_heartbeat
    toggle_maintenance toggle_drain_mode update_status update_heartbeat update_maintenance_mode
    update_drain_mode with_status with_heartbeat with_maintenance with_drain
node_step-Holds id (enroll_step now new_id q) r d h = enroll_node-Holds now new_id id q r d h
node_step-Holds id (connect_step now i) r d h =
    when_active-Holds id i r (connected now i r) h
      (λ n t. other-Holds (with_status now _) id i r.store (λ m. refl) t h)
node_step-Holds id (disconnect_step now i) r d h = elim (Result-cases (active i r)) [
  | inr (e, g) ↦ rw (g, disconnected) h
  | inl (n, g) ↦
      rw (g, disconnected)
        (other-Holds (with_status now offline) id i r.store (λ m. refl) (active-other id i r h g) h)
]
node_step-Holds id (revoke_step now i) r d h =
    cut_off-Holds id i r (revoke now i r.store) (revoke-Holds now id i r.store h)
node_step-Holds id (heartbeat_step now i caps) r d h =
    when_active-Holds id i r _ h
      (λ n t. other-Holds (with_heartbeat now caps) id i r.store (λ m. refl) t h)
node_step-Holds id (maintenance_step now i on) r d h = when_active-Holds id i r _ h (λ n t.
    stored-Holds id _ i r (update_maintenance_mode now i on r.store)
      (other-Holds (with_maintenance now on) id i r.store (λ m. refl) t h))
node_step-Holds id (drain_step now i drain) r d h = when_active-Holds id i r _ h (λ n t.
    stored-Holds id _ i r (update_drain_mode now i drain r.store)
      (other-Holds (with_drain now drain) id i r.store (λ m. refl) t h))
node_step-Holds id (supervise_step reason now missed) r d h =
    supervised-Holds reason now missed id r.store h

node_steps-Holds :
    (id : String) (cs : List NodeStep) (r : Registry)
    → All (DrawsOther id) cs
    → Holds id r.store
    → Holds id (node_steps cs r).store
node_steps-Holds id [] r d h = h
node_steps-Holds id (c ∷ cs) r d h =
    node_steps-Holds id cs (node_step c r) d.1 (node_step-Holds id c r d.0 h)

-- Where each entry of the repository has the identifier of its node: a revoked node is revoked, and
-- every command to it refused, after any steps of enrollment, of the streams, of the operators and of
-- the supervisor, each of which is done before the next begins, if no enrollment draws the node's
-- identifier again.
pub may_send-revoked :
    (id : String) (cs : List NodeStep) (r : Registry) (n : Node)
    → IsKeyed r.store
    → lookup id r.store.nodes ≡ some n
    → n.status ≡ revoked
    → All (DrawsOther id) cs
    → may_send id (node_steps cs r) ≡ err node_revoked
unfolding may_send active node_by_id
may_send-revoked id cs r n h e u d =
    let (k, (x, l, t)) = node_steps-Holds id cs r d (h, (n, e, u)) in rw (l, t) refl
