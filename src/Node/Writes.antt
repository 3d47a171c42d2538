-- ===== src/Node/Writes.antt =====
-- internal/infra/memory/node_repo.go: writes that leave a revoked node revoked.
use aurora_old.Base.{
  String, ◌==◌, eq_iff, Bool, true, false, some, Option-cases, Bool-cases, inl, inr, if◌then◌else◌,
  ok, ◌≡◌, ◌∙◌, ap, refl,
}
use aurora_old.Base.Int.{ℤ}
use aurora_old.Base.Assoc.{lookup, insert, lookup-insert, Each-lookup, Each-insert, insert-IsMap}
use aurora_old.Node.Types.{Node, revoked}
use aurora_old.Node.Repo.{NodeStore, changed, node_by_id, with_status, revoke}
use aurora_old.Node.Service.{Registry, active}
use aurora_old.Node.Views.{IsKeyed}

abbrev IsRevoked : String → NodeStore → Type 0
IsRevoked id st = (x : Node) × (lookup id st.nodes ≡ some x) × (x.status ≡ revoked)

-- What every step keeps.
abbrev pub Holds : String → NodeStore → Type 0
Holds id st = IsKeyed st × IsRevoked id st

-- A write keeps the identifier, and is to another node or leaves this one revoked.
pub changed-Holds :
    (f : Node → Node) (id other : String) (st : NodeStore)
    → ((n : Node) → (f n).id ≡ n.id)
    → ((other == id) ≡ true → (n : Node) → (f n).status ≡ revoked)
    → Holds id st
    → Holds id (changed f other st).0
changed-Holds f id other st k d ((h, u), (x, e, r)) = elim (Option-cases (lookup other st.nodes)) [
  | inl g ↦ rw (g, changed) ((h, u), (x, e, r))
  | inr (n, g) ↦
      rw (g, changed)
        (
          (
            Each-insert (λ i y. y.id ≡ i) other (f n) st.nodes h
                (k n ∙ Each-lookup (λ i y. y.id ≡ i) other st.nodes h g),
            insert-IsMap other (f n) st.nodes u,
          ),
          written (f n) (other == id) (lookup-insert other id (f n) st.nodes) (λ t. d t n),
        )
]
  where
    written :
        (y : Node) (b : Bool)
        → lookup id (insert other y st.nodes) ≡ (if b then some y else lookup id st.nodes)
        → (b ≡ true → y.status ≡ revoked)
        → (z : Node) × (lookup id (insert other y st.nodes) ≡ some z) × (z.status ≡ revoked)
    written y true l c = (y, l, c refl)
    written y false l c = (x, l ∙ e, r)

pub revoke-Holds :
    (now : ℤ) (id other : String) (st : NodeStore) → Holds id st → Holds id (revoke now other st).0
unfolding revoke with_status
revoke-Holds now id other st h =
    changed-Holds (with_status now revoked) id other st (λ n. refl) (λ t n. refl) h

-- The node of a call that does something is another one.
pub active-other :
    (id other : String) (r : Registry) {n : Node}
    → Holds id r.store
    → active other r ≡ ok n
    → (other == id) ≡ false
unfolding active node_by_id
active-other id other r (h, (x, e, u)) k = elim (Bool-cases (other == id)) [
  | inr t ↦ t
  | inl t ↦
      let l = ap (λ i. lookup i r.store.nodes) ((eq_iff other id).0 t) ∙ e in
      let c = rw (l, u) at k in cc
]
