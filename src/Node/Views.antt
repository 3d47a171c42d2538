-- ===== src/Node/Views.antt =====
-- internal/app/nodehealth/supervisor.go: an evaluation of all nodes, seen at one of them.
use aurora_old.Base.{
  ℕ, suc, String, ◌==◌, eq_iff, Bool, true, false, Option, none, some, Option-cases, Bool-cases,
  Result-cases, inl, inr, [], ◌∷◌, if◌then◌else◌, ◌≡◌, ◌∙◌, ap, sym, refl, arith,
}
use aurora_old.Base.Int.{ℤ}
use aurora_old.Base.Assoc.{
  Assoc, lookup, insert, lookup-insert, lookup-erase, Each, IsMap, Each-lookup, Each-insert,
  insert-IsMap,
}
use aurora_old.Node.Types.{Node, NodeStatus}
use aurora_old.Node.Repo.{NodeStore, changed, update_health_state, with_health}
use aurora_old.Node.Supervisor.{
  Supervision, transition_node, is_stale, is_skipped, count_of, missed_count, stale_target,
  fresh_target, moved, evaluate_node, evaluate_all, age_of,
}

-- What one evaluation reads and writes of a node.
abbrev pub View : Type 0
View = Option Node × Option ℕ

abbrev pub view : String → Supervision → View
view id s = (lookup id s.store.nodes, lookup id s.missed)

-- Each entry has the identifier of its node.
abbrev pub IsKeyed : NodeStore → Type 0
IsKeyed st = Each (λ k n. n.id ≡ k) st.nodes × IsMap st.nodes

module _ (reason : ℤ → NodeStatus → String) (now : ℤ) where
  abbrev pub to_status : Node → Option NodeStatus → Option Node → Option Node
  to_status n none o = o
  to_status n (some t) none = none
  to_status n (some t) (some x) = some (with_health now t (reason (age_of now n) t) x)

  -- The evaluation of a node, on its own view.
  abbrev pub step : Node → View → View
  step n (o, c) =
      if is_skipped n
      then (o, none)
      else if is_stale now n
      then (to_status n (stale_target now (suc (count_of c)) n) o, some (suc (count_of c)))
      else (to_status n (fresh_target n) o, some 0)

  at_same : {A : Type 0} (m : Assoc A) (i j : String) → (i == j) ≡ true → lookup i m ≡ lookup j m
  at_same m i j h = ap (λ k. lookup k m) ((eq_iff i j).0 h)

  moved-nodes :
      (n : Node) (t : Option NodeStatus) (s : Supervision) (id : String)
      → lookup id (moved reason now n t s).store.nodes
        ≡ (if n.id == id then to_status n t (lookup id s.store.nodes) else lookup id s.store.nodes)
  unfolding transition_node update_health_state
  moved-nodes n none s id = ground arith
  moved-nodes n (some t) s id =
      let e = at_same s.store.nodes n.id id in
      elim (Option-cases (lookup n.id s.store.nodes)) [
        | inl h ↦ ground arith
        | inr (x, h) ↦ ground (
          arith,
          lookup-insert n.id id (with_health now t (reason (age_of now n) t) x) s.store.nodes,
        )
      ]

  moved-missed :
      (n : Node) (t : Option NodeStatus) (s : Supervision)
      → (moved reason now n t s).missed ≡ s.missed
  unfolding transition_node update_health_state
  moved-missed n none s = refl
  moved-missed n (some t) s = elim (Option-cases (lookup n.id s.store.nodes)) [
    | inl h ↦ ground arith
    | inr (x, h) ↦ ground arith
  ]

  abbrev counted : Node → ℕ → Supervision → Supervision
  counted n k s = record s { missed = insert n.id k s.missed }

  evaluate_node-nodes :
      (n : Node) (s : Supervision) (id : String)
      → lookup id (evaluate_node reason now n s).store.nodes
        ≡ (if n.id == id then (step n (view id s)).0 else lookup id s.store.nodes)
  unfolding evaluate_node
  evaluate_node-nodes n s id =
      let k = suc (missed_count n.id s.missed) in
      let c : (n.id == id) ≡ true → k ≡ suc (count_of (lookup id s.missed)) =
        λ h. ap (λ o. suc (count_of o)) (at_same s.missed n.id id h) in
      let a = moved-nodes n (stale_target now k n) (counted n k s) id in
      let b = moved-nodes n (fresh_target n) (counted n 0 s) id in
      elim (Bool-cases (is_skipped n)) [
        | inl h ↦ rw h (ground arith)
        | inr h ↦ elim (Bool-cases (is_stale now n)) [
          | inl g ↦ rw (h, g) (a ∙ one_count (n.id == id) k (suc (count_of (lookup id s.missed))) c)
          | inr g ↦ rw (h, g) (ground arith)
        ]
      ]
    where
      one_count :
          (b : Bool) (k j : ℕ)
          → (b ≡ true → k ≡ j)
          → (if b
              then to_status n (stale_target now k n) (lookup id s.store.nodes)
              else lookup id s.store.nodes)
            ≡ (if b
                then to_status n (stale_target now j n) (lookup id s.store.nodes)
                else lookup id s.store.nodes)
      one_count true k j c =
          ap (λ l. to_status n (stale_target now l n) (lookup id s.store.nodes)) (c refl)
      one_count false k j c = refl

  evaluate_node-missed :
      (n : Node) (s : Supervision) (id : String)
      → lookup id (evaluate_node reason now n s).missed
        ≡ (if n.id == id then (step n (view id s)).1 else lookup id s.missed)
  unfolding evaluate_node
  evaluate_node-missed n s id =
      let k = suc (missed_count n.id s.missed) in
      let c : (n.id == id) ≡ true → k ≡ suc (count_of (lookup id s.missed)) =
        λ h. ap (λ o. suc (count_of o)) (at_same s.missed n.id id h) in
      let a = moved-missed n (stale_target now k n) (counted n k s) in
      let b = moved-missed n (fresh_target n) (counted n 0 s) in
      let i = lookup-insert n.id id k s.missed in
      let j = lookup-insert n.id id 0 s.missed in
      let d = lookup-erase n.id id s.missed in
      elim (Bool-cases (is_skipped n)) [
        | inl h ↦ rw h (ground arith)
        | inr h ↦ elim (Bool-cases (is_stale now n)) [
          | inl g ↦ rw (h, g, a) (ground arith)
          | inr g ↦ rw (h, g, b) (ground arith)
        ]
      ]

  evaluate_node-view :
      (n : Node) (s : Supervision) (id : String)
      → view id (evaluate_node reason now n s)
        ≡ (if n.id == id then step n (view id s) else view id s)
  evaluate_node-view n s id =
      ground (arith, evaluate_node-nodes n s id, evaluate_node-missed n s id)

  abbrev pub on_view : Option Node → View → View
  on_view none w = w
  on_view (some n) w = step n w

  pub evaluate_all-view :
      (m : Assoc Node) (s : Supervision) (id : String)
      → Each (λ k n. n.id ≡ k) m
      → IsMap m
      → view id (evaluate_all reason now m s) ≡ on_view (lookup id m) (view id s)
  unfolding lookup
  evaluate_all-view [] s id h u = refl
  evaluate_all-view ((k, n) ∷ m) s id h u =
      let r = evaluate_all-view m (evaluate_node reason now n s) id h.1 u.1 in
      let a = evaluate_node-view n s id in
      elim (Bool-cases (k == id)) [
        | inl e ↦
            let l = sym (at_same m k id e) ∙ u.0 in
            rw e ((rw l at r) ∙ (rw (ap (λ x. x == id) h.0 ∙ e) at a))
        | inr e ↦ rw e (r ∙ ap (on_view (lookup id m)) (rw (ap (λ x. x == id) h.0 ∙ e) at a))
      ]

  update_health_state-IsKeyed :
      (id : String) (t : NodeStatus) (why : String) (st : NodeStore)
      → IsKeyed st
      → IsKeyed (update_health_state now id t why st).0
  unfolding update_health_state with_health
  update_health_state-IsKeyed id t why st h = elim (Option-cases (lookup id st.nodes)) [
    | inl e ↦ rw (e, changed) h
    | inr (n, e) ↦
        rw (e, changed)
          (
            Each-insert (λ k x. x.id ≡ k) id (with_health now t why n) st.nodes h.0
                (Each-lookup (λ k x. x.id ≡ k) id st.nodes h.0 e),
            insert-IsMap id (with_health now t why n) st.nodes h.1,
          )
  ]

  moved-IsKeyed :
      (n : Node) (t : Option NodeStatus) (s : Supervision)
      → IsKeyed s.store
      → IsKeyed (moved reason now n t s).store
  unfolding transition_node
  moved-IsKeyed n none s h = h
  moved-IsKeyed n (some t) s h =
      let k = update_health_state-IsKeyed n.id t (reason (age_of now n) t) s.store h in
      elim (Result-cases (update_health_state now n.id t (reason (age_of now n) t) s.store).1) [
        | inl e ↦ rw (e.1, moved, transition_node) k
        | inr e ↦ rw (e.1, moved, transition_node) k
      ]

  evaluate_node-IsKeyed :
      (n : Node) (s : Supervision) → IsKeyed s.store → IsKeyed (evaluate_node reason now n s).store
  unfolding evaluate_node
  evaluate_node-IsKeyed n s h = elim (Bool-cases (is_skipped n)) [
    | inl e ↦ rw e h
    | inr e ↦ elim (Bool-cases (is_stale now n)) [
      | inl g ↦ rw (e, g) (moved-IsKeyed n _ _ h)
      | inr g ↦ rw (e, g) (moved-IsKeyed n _ _ h)
    ]
  ]

  pub evaluate_all-IsKeyed :
      (m : Assoc Node) (s : Supervision)
      → IsKeyed s.store
      → IsKeyed (evaluate_all reason now m s).store
  evaluate_all-IsKeyed [] s h = h
  evaluate_all-IsKeyed ((k, n) ∷ m) s h =
      evaluate_all-IsKeyed m (evaluate_node reason now n s) (evaluate_node-IsKeyed n s h)
