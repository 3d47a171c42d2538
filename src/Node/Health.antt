-- ===== src/Node/Health.antt =====
-- internal/app/nodehealth/supervisor.go: how fast the supervisor finds a silent node.
use aurora_old.Base.{
  ℕ, suc, ◌≤◌, String, true, false, none, some, Option-cases, inl, inr, ◌≡◌, ◌⊎◌, ap, refl, arith,
}
use aurora_old.Base.Int.{ℤ}
use aurora_old.Base.Assoc.{lookup}
use aurora_old.Node.Types.{Node, NodeStatus, degraded, unhealthy, same_status}
use aurora_old.Node.Repo.{with_health}
use aurora_old.Node.Supervisor.{
  Supervision, is_stale, is_skipped, count_of, missed_count, stale_target, evaluate_nodes, age_of,
}
use aurora_old.Node.Views.{view, IsKeyed, on_view, evaluate_all-view, evaluate_all-IsKeyed}

same_status_eq : (a b : NodeStatus) → same_status a b ≡ true → a ≡ b
same_status_eq a b h = ground arith

stale_target-some :
    (now : ℤ) (k : ℕ) (n : Node) (t : NodeStatus)
    → stale_target now k n ≡ some t
    → ((t ≡ unhealthy) ⊎ (t ≡ degraded)) × (3 ≤ k → t ≡ unhealthy)
unfolding stale_target
stale_target-some now k n t h = (ground arith, λ l. ground arith)

stale_target-none :
    (now : ℤ) (k : ℕ) (n : Node) → stale_target now k n ≡ none → 3 ≤ k → n.status ≡ unhealthy
unfolding stale_target
stale_target-none now k n h l = ground (arith, same_status_eq n.status unhealthy)

is_stale-heartbeat :
    (now : ℤ) (n x : Node)
    → x.last_heartbeat_at ≡ n.last_heartbeat_at
    → is_stale now x ≡ is_stale now n
unfolding is_stale age_of
is_stale-heartbeat now n x e = rw e refl

is_skipped-with_health :
    (now : ℤ) (t : NodeStatus) (why : String) (n : Node)
    → is_skipped n ≡ false
    → (t ≡ unhealthy) ⊎ (t ≡ degraded)
    → is_skipped (with_health now t why n) ≡ false
unfolding is_skipped with_health
is_skipped-with_health now t why n h e = ground arith

-- A node that the supervisor watches and whose heartbeat is that of the first.
abbrev Watched : Node → String → ℕ → Supervision → Type 0
Watched n id k s =
    (x : Node) × (lookup id s.store.nodes ≡ some x)
    × (is_skipped x ≡ false)
    × (x.last_heartbeat_at ≡ n.last_heartbeat_at)
    × (k ≤ missed_count id s.missed)
    × (3 ≤ k → x.status ≡ unhealthy)

module _ (reason : ℤ → NodeStatus → String) (now : ℤ) where
  pub pass-view :
      (s : Supervision) (id : String)
      → IsKeyed s.store
      → view id (evaluate_nodes reason now s)
        ≡ on_view reason now (lookup id s.store.nodes) (view id s)
  unfolding evaluate_nodes
  pass-view s id h = evaluate_all-view reason now s.store.nodes s id h.0 h.1

  pub pass-IsKeyed :
      (s : Supervision) → IsKeyed s.store → IsKeyed (evaluate_nodes reason now s).store
  unfolding evaluate_nodes
  pass-IsKeyed s h = evaluate_all-IsKeyed reason now s.store.nodes s h

  pass-Watched :
      (n : Node) (id : String) (k : ℕ) (s : Supervision)
      → IsKeyed s.store
      → is_stale now n ≡ true
      → Watched n id k s
      → Watched n id (suc k) (evaluate_nodes reason now s)
  unfolding with_health
  pass-Watched n id k s h g (x, e, u, b, l, m) =
      let v = rw (e, u, is_stale-heartbeat now n x b, g) at (pass-view s id h) in
      let j = suc (missed_count id s.missed) in
      let a = ap (λ w. w.0) v in
      let c : missed_count id (evaluate_nodes reason now s).missed ≡ j = ap (λ w. count_of w.1) v in
      elim (Option-cases (stale_target now j x)) [
        | inl t ↦ (
          x,
          rw t at a,
          u,
          b,
          omega (arith, c, l),
          λ q. stale_target-none now j x t (omega arith),
        )
        | inr (w, t) ↦
            let (d, f) = stale_target-some now j x w t in
            (
              with_health now w (reason (age_of now x) w) x,
              rw t at a,
              is_skipped-with_health now w _ x u d,
              b,
              omega (arith, c, l),
              λ q. f (omega arith),
            )
      ]

-- Where each entry of the repository has the identifier of its node: a node that is neither revoked nor
-- enrolling nor in maintenance, and whose last heartbeat is stale at three successive evaluations, is
-- in the repository as unhealthy after the third, however often it was missed before, and whatever
-- the other nodes are.
pub evaluate_nodes-silent :
    (reason : ℤ → NodeStatus → String) (first second third : ℤ) (s : Supervision) (id : String)
    (n : Node)
    → IsKeyed s.store
    → lookup id s.store.nodes ≡ some n
    → is_skipped n ≡ false
    → is_stale first n ≡ true
    → is_stale second n ≡ true
    → is_stale third n ≡ true
    → let s' =
        evaluate_nodes reason third
          (evaluate_nodes reason second (evaluate_nodes reason first s)) in
      (x : Node) × (lookup id s'.store.nodes ≡ some x) × (x.status ≡ unhealthy)
evaluate_nodes-silent reason first second third s id n h e u a b c =
    let s1 = evaluate_nodes reason first s in
    let h1 = pass-IsKeyed reason first s h in
    let s2 = evaluate_nodes reason second s1 in
    let h2 = pass-IsKeyed reason second s1 h1 in
    let w1 =
      pass-Watched reason first n id 0 s h a (n, e, u, refl, omega arith, λ q. ground arith) in
    let w2 = pass-Watched reason second n id 1 s1 h1 b w1 in
    let (x, y, z, i, j, k) = pass-Watched reason third n id 2 s2 h2 c w2 in (x, y, k (omega arith))
