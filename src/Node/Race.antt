-- ===== src/Node/Race.antt =====
-- internal/app/nodehealth/supervisor.go: a revocation between the supervisor's list and its writes.
use aurora_old.Base.{ℕ, String, true, false, Option, some, ◌≡◌, ◌∙◌, ap, refl}
use aurora_old.Base.Int.{ℤ, ltb_ℤ}
use aurora_old.Base.Assoc.{lookup, lookup-insert_self}
use aurora_old.Node.Types.{Node, NodeStatus, unhealthy, revoked, same_status, is_connectable}
use aurora_old.Node.Repo.{NodeStore, changed, with_status, with_health, revoke}
use aurora_old.Node.Supervisor.{
  Supervision, is_skipped, is_stale, age_of, unhealthy_limit, stale_target, evaluate_all,
}
use aurora_old.Node.Views.{IsKeyed, step, evaluate_all-view}

unhealthy_step :
    (reason : ℤ → NodeStatus → String) (now : ℤ) (n y : Node) (c : Option ℕ)
    → is_skipped n ≡ false
    → same_status n.status unhealthy ≡ false
    → is_stale now n ≡ true
    → ltb_ℤ unhealthy_limit (age_of now n) ≡ true
    → (step reason now n (some y, c)).0
      ≡ some (with_health now unhealthy (reason (age_of now n) unhealthy) y)
unfolding stale_target
unhealthy_step reason now n y c u t g a = rw (u, g, a, t) refl

revoked_at :
    (later : ℤ) (id : String) (st : NodeStore) (n : Node)
    → lookup id st.nodes ≡ some n
    → lookup id (revoke later id st).0.nodes ≡ some (with_status later revoked n)
unfolding revoke
revoked_at later id st n e =
    rw (e, changed) (lookup-insert_self id (with_status later revoked n) st.nodes)

-- The supervisor's list and its writes are not one step. Where each entry of the repository has the
-- identifier of its node: if a node that was neither revoked nor enrolling nor in maintenance nor
-- unhealthy, with its last heartbeat older than the unhealthy limit, is revoked between the two, the
-- write puts it back to unhealthy, and the agent may connect again.
pub evaluate_all-revoked :
    (reason : ℤ → NodeStatus → String) (now later : ℤ) (s : Supervision) (id : String) (n : Node)
    → IsKeyed s.store
    → lookup id s.store.nodes ≡ some n
    → is_skipped n ≡ false
    → same_status n.status unhealthy ≡ false
    → is_stale now n ≡ true
    → ltb_ℤ unhealthy_limit (age_of now n) ≡ true
    → let s' =
        evaluate_all reason now s.store.nodes (record s { store = (revoke later id s.store).0 }) in
      (x : Node) × (lookup id s'.store.nodes ≡ some x)
      × (x.status ≡ unhealthy)
      × (is_connectable x ≡ true)
unfolding with_health is_connectable
evaluate_all-revoked reason now later s id n h e u t g a =
    let st = (revoke later id s.store).0 in
    let y = with_status later revoked n in
    let v =
      ap (λ w. w.0)
        (evaluate_all-view reason now s.store.nodes (record s { store = st }) id h.0 h.1) in
    let o = unhealthy_step reason now n y (lookup id s.missed) u t g a in
    (
      with_health now unhealthy (reason (age_of now n) unhealthy) y,
      (rw (e, revoked_at later id s.store n e) at v) ∙ o,
      refl,
      refl,
    )
