-- ===== src/Placement/Fits.antt =====
-- internal/app/scheduler/scheduler.go: the node that is selected can take the instance, and one is selected if
-- any can.
use mathlib.Core.List.{Memᴰ}
use aurora_old.Base.{
  String, ◌==◌, eq_iff, true, false, ◌&&◌, ◌||◌, Bool-cases, inl, inr, List, [], ◌∷◌, keep,
  if◌then◌else◌, All, Result, ok, err, is_ok, ◌≡◌, ◌∙◌, ap, sym, refl, arith,
}
use aurora_old.Base.Int.{◌-ℤ◌, ◌≤ℤ◌, int64}
use aurora_old.Base.Assoc.{Assoc, lookup, insert, lookup-insert}
use aurora_old.Node.Types.{Node, is_schedulable}
use aurora_old.Compute.Instance.{Instance}
use aurora_old.Placement.Scheduler.{
  Floats, PlacementRequest, Allocation, nothing, or_nothing, allocation_of, grown, is_counted,
  node_allocations, PlacementError, no_eligible_nodes, is_listed, Fleet, Candidate, memory_limit,
  storage_limit, architecture_of, lacks_kvm, lacks_cpu, judged, evaluate_candidates, is_eligible,
  first_of, select_node,
}

-- The sums over the counted instances of one node, from the first to the last.
abbrev pub load : String → List Instance → Allocation → Allocation
load id [] a = a
load id (i ∷ rest) a = load id rest (if is_counted i && i.node_id == id then grown i a else a)

one_more :
    (id : String) (i : Instance) (m : Assoc Allocation)
    → allocation_of id
        (if is_counted i then insert i.node_id (grown i (allocation_of i.node_id m)) m else m)
      ≡ (if is_counted i && i.node_id == id
          then grown i (allocation_of id m)
          else allocation_of id m)
one_more id i m =
    let l = lookup-insert i.node_id id (grown i (allocation_of i.node_id m)) m in
    let e : (i.node_id == id) ≡ true → allocation_of i.node_id m ≡ allocation_of id m =
      λ h. ap (λ k. allocation_of k m) ((eq_iff i.node_id id).0 h) in
    elim (Bool-cases (is_counted i)) [
      | inr c ↦ rw c refl
      | inl c ↦ elim (Bool-cases (i.node_id == id)) [
        | inl t ↦ rw (c, t) (ap or_nothing (rw t at l) ∙ ap (grown i) (e t))
        | inr t ↦ rw (c, t) (ap or_nothing (rw t at l))
      ]
    ]

node_allocations-load :
    (id : String) (l : List Instance) (m : Assoc Allocation)
    → allocation_of id (node_allocations l m) ≡ load id l (allocation_of id m)
node_allocations-load id [] m = refl
node_allocations-load id (i ∷ rest) m =
    node_allocations-load id rest _ ∙ ap (load id rest) (one_more id i m)

module _ (f : Floats) (fleet : Fleet f) (q : PlacementRequest) (instances : List Instance) where
  -- What a node must have for the request.
  abbrev pub Fits : Node → Type 0
  Fits n =
      let a = load n.id instances nothing in
      (is_listed n.id q.exclude_node_ids ≡ false)
      × (is_schedulable n ≡ true)
      × ((q.location_id == "" || n.location_id == q.location_id) ≡ true)
      × ((q.architecture == "" || fleet.equal_fold q.architecture (architecture_of f fleet n))
          ≡ true)
      × (lacks_kvm f fleet q n ≡ false)
      × (lacks_cpu f fleet q a n ≡ false)
      × (q.memory_bytes ≤ℤ int64 (memory_limit f fleet n -ℤ a.memory_bytes))
      × (q.storage_bytes ≤ℤ int64 (storage_limit f fleet n -ℤ a.storage_bytes))

  judged-Fits :
      (n : Node) → is_ok (judged f fleet q (load n.id instances nothing) n) ≡ true → Fits n
  unfolding judged
  judged-Fits n h = ground arith

  Fits-judged :
      (n : Node) → Fits n → is_ok (judged f fleet q (load n.id instances nothing) n) ≡ true
  unfolding judged
  Fits-judged n h = ground arith

  abbrev candidates : List Node → List (Candidate f)
  candidates nodes = evaluate_candidates f fleet q nodes instances

  -- What holds of the candidates, of the nodes that are given.
  abbrev IsFor : List Node → Candidate f → Type 0
  IsFor nodes c = Memᴰ c.node nodes × (is_eligible f fleet c ≡ true → Fits c.node)

  is_eligible-Fits :
      (n : Node)
      → is_ok (judged f fleet q (allocation_of n.id (node_allocations instances [])) n) ≡ true
      → Fits n
  unfolding lookup
  is_eligible-Fits n h = judged-Fits n (rw (node_allocations-load n.id instances []) at h)

  All-more :
      (n : Node) (nodes : List Node) (l : List (Candidate f))
      → All (IsFor nodes) l
      → All (IsFor (n ∷ nodes)) l
  All-more n nodes [] h = tt
  All-more n nodes (c ∷ l) h = ((Memᴰ.tail h.0.0, h.0.1), All-more n nodes l h.1)

  candidates-IsFor : (nodes : List Node) → All (IsFor nodes) (candidates nodes)
  unfolding evaluate_candidates
  candidates-IsFor [] = tt
  candidates-IsFor (n ∷ nodes) = (
    (Memᴰ.head refl, is_eligible-Fits n),
    All-more n nodes (candidates nodes) (candidates-IsFor nodes),
  )

  kept-IsFor :
      (nodes : List Node) (l : List (Candidate f))
      → All (IsFor nodes) l
      → All (λ c. Memᴰ c.node nodes × Fits c.node) (keep (is_eligible f fleet) l)
  kept-IsFor nodes [] h = tt
  kept-IsFor nodes (c ∷ l) h = elim (Bool-cases (is_eligible f fleet c)) [
    | inl e ↦ rw e ((h.0.0, h.0.1 e), kept-IsFor nodes l h.1)
    | inr e ↦ rw e (kept-IsFor nodes l h.1)
  ]

  none_kept :
      (nodes : List Node)
      → keep (is_eligible f fleet) (candidates nodes) ≡ []
      → All (λ n. ¬ (Fits n)) nodes
  unfolding evaluate_candidates lookup
  none_kept [] h = tt
  none_kept (n ∷ nodes) h =
      elim (Bool-cases
        (is_ok (judged f fleet q (allocation_of n.id (node_allocations instances [])) n))) [
          | inl e ↦ let c = rw e at h in cc
          | inr e ↦ (
            λ k.
                let x : is_ok (judged f fleet q (load n.id instances nothing) n) ≡ false =
                  rw (node_allocations-load n.id instances []) at e in
                let y = Fits-judged n k in cc,
            none_kept nodes (rw e at h),
          )
        ]

  -- `sort.Slice` only reorders: what holds of all entries holds of all that it leaves, and none are lost.
  abbrev pub Reorders : (List (Candidate f) → List (Candidate f)) → Type 1
  Reorders sort =
      ((P : Candidate f → Type 0) (l : List (Candidate f)) → All P l → All P (sort l))
      × ((l : List (Candidate f)) → sort l ≡ [] → l ≡ [])

  first_ok :
      (P : Candidate f → Type 0) (l : List (Candidate f)) {n : Node}
      → All P l
      → first_of f fleet l ≡ ok n
      → (c : Candidate f) × (c.node ≡ n) × P c
  first_ok P [] h e = cc
  first_ok P (c ∷ l) h e = (c, one_node (ok c.node) refl e, h.0)
    where
      one_node : (r : Result PlacementError Node) {x y : Node} → r ≡ ok x → r ≡ ok y → x ≡ y
      one_node r d e = cc

  first_err : (l : List (Candidate f)) → first_of f fleet l ≡ err no_eligible_nodes → l ≡ []
  first_err [] e = refl
  first_err (c ∷ l) e = cc

-- Where the sorting only reorders: a node that is selected is one of the nodes that are given, and it fits, that
-- is, it is schedulable and not excluded, has the location, architecture and virtualization that the
-- request asks for, and, next to the instances that count on it, room for its processors, memory and
-- storage; and if none is selected, none of the nodes that are given fits.
pub select_node-Fits :
    (f : Floats) (fleet : Fleet f) (q : PlacementRequest) (instances : List Instance)
    (sort : List (Candidate f) → List (Candidate f)) (nodes : List Node)
    → Reorders f fleet q instances sort
    → ((n : Node)
        → select_node f fleet sort q nodes instances ≡ ok n
        → Memᴰ n nodes × Fits f fleet q instances n)
      × (select_node f fleet sort q nodes instances ≡ err no_eligible_nodes
          → All (λ n. ¬ (Fits f fleet q instances n)) nodes)
unfolding select_node
select_node-Fits f fleet q instances sort nodes (k, z) = (
  λ n e.
      let l = candidates f fleet q instances nodes in
      let h =
        k _ _
          (kept-IsFor f fleet q instances nodes l (candidates-IsFor f fleet q instances nodes)) in
      let (c, a, b) = first_ok f fleet q instances _ _ h e in rw (sym a) b,
  λ e. none_kept f fleet q instances nodes (z _ (first_err f fleet q instances _ e)),
)
