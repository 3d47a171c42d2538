-- ===== src/Compute/Consistent.antt =====
-- internal/infra/memory/instance_repo.go: the writes keep the two maps together.
use aurora_old.Base.{
  ℕ, String, Option, none, some, List, get_elem?, Option-cases, inl, inr, ok, ◌≡◌, refl, sym, ap,
  ◌∙◌,
}
use aurora_old.Base.Int.{ℤ}
use aurora_old.Base.Assoc.{lookup}
use aurora_old.Compute.Instance.{Instance, Status}
use aurora_old.Compute.Repo.{
  InstanceStore, new_instance_store, at_pointer, found, create, get_by_id, get_by_name, write_at,
  with_status, update_status, with_spec, update_spec, with_node, update_node_id, delete,
}
use aurora_old.Compute.Sides.{same_place, Side, Side-insert, Side-erase, Side-set}

pub record IsConsistent (s : InstanceStore) : Type 0 where
  pub by_ids : Side (λ i. i.id) (λ i. i.name) s.heap s.instances s.by_name
  pub by_names : Side (λ i. i.name) (λ i. i.id) s.heap s.by_name s.instances

pub new-IsConsistent : IsConsistent new_instance_store
unfolding new_instance_store lookup
new-IsConsistent = record { by_ids = λ k p e. cc; by_names = λ k p e. cc }

pub create-IsConsistent :
    (i : Instance) (s : InstanceStore)
    → lookup i.id s.instances ≡ none
    → IsConsistent s
    → IsConsistent (create i s).0
unfolding create
create-IsConsistent i s fresh h = elim (Option-cases (lookup i.name s.by_name)) [
  | inl e ↦ rw e (record {
    by_ids = Side-insert (λ j. j.id) (λ j. j.name) s.heap s.instances s.by_name i h.by_ids e;
    by_names =
        Side-insert (λ j. j.name) (λ j. j.id) s.heap s.by_name s.instances i h.by_names fresh;
  })
  | inr e ↦ rw e.1 h
]

write_at-IsConsistent :
    (f : Instance → Instance) (o : Option ℕ) (s : InstanceStore)
    → ((j : Instance) → (f j).id ≡ j.id)
    → ((j : Instance) → (f j).name ≡ j.name)
    → IsConsistent s
    → IsConsistent (write_at f o s).0
write_at-IsConsistent f none s a b h = h
write_at-IsConsistent f (some p) s a b h = elim (Option-cases (get_elem? s.heap p)) [
  | inl e ↦ rw (e, write_at) h
  | inr e ↦
      rw (e.1, write_at)
        (record {
          by_ids =
              Side-set (λ j. j.id) (λ j. j.name) f s.heap s.instances s.by_name e.0 p a b e.1
                h.by_ids;
          by_names =
              Side-set (λ j. j.name) (λ j. j.id) f s.heap s.by_name s.instances e.0 p b a e.1
                h.by_names;
        })
]

pub update_status-IsConsistent :
    (now : ℤ) (id : String) (t : Status) (ip4 ip6 : String) (s : InstanceStore)
    → IsConsistent s
    → IsConsistent (update_status now id t ip4 ip6 s).0
unfolding update_status with_status
update_status-IsConsistent now id t ip4 ip6 s h =
    write_at-IsConsistent (with_status now t ip4 ip6) (lookup id s.instances) s (λ j. refl)
      (λ j. refl) h

pub update_spec-IsConsistent :
    (now : ℤ) (id : String) (cpu memory storage : ℤ) (s : InstanceStore)
    → IsConsistent s
    → IsConsistent (update_spec now id cpu memory storage s).0
unfolding update_spec with_spec
update_spec-IsConsistent now id cpu memory storage s h =
    write_at-IsConsistent (with_spec now cpu memory storage) (lookup id s.instances) s (λ j. refl)
      (λ j. refl) h

pub update_node_id-IsConsistent :
    (now : ℤ) (id node : String) (s : InstanceStore)
    → IsConsistent s
    → IsConsistent (update_node_id now id node s).0
unfolding update_node_id with_node
update_node_id-IsConsistent now id node s h =
    write_at-IsConsistent (with_node now node) (lookup id s.instances) s (λ j. refl) (λ j. refl) h

pub delete-IsConsistent :
    (id : String) (s : InstanceStore) → IsConsistent s → IsConsistent (delete id s).0
unfolding delete
delete-IsConsistent id s h = elim (Option-cases (lookup id s.instances)) [
  | inl e ↦ rw e h
  | inr (p, e) ↦
      let (i, g, u, l) = h.by_ids id p e in
      rw (e, g, sym u)
        (record {
          by_ids =
              Side-erase (λ j. j.id) (λ j. j.name) s.heap s.instances s.by_name i p h.by_ids g l;
          by_names =
              Side-erase (λ j. j.name) (λ j. j.id) s.heap s.by_name s.instances i p h.by_names g
                (ap (λ k. lookup k s.instances) u ∙ e);
        })
]

pub found_ok : (o : Option Instance) {i : Instance} → found o ≡ ok i → o ≡ some i
found_ok none e = cc
found_ok (some j) e = cc

pointed :
    (o : Option ℕ) (heap : List Instance) {i : Instance}
    → found (at_pointer o heap) ≡ ok i
    → (p : ℕ) × (o ≡ some p) × (get_elem? heap p ≡ some i)
pointed none heap e = cc
pointed (some p) heap e = (p, refl, found_ok _ e)

module _ (s : InstanceStore) (h : IsConsistent s) where
  pub get_by_id-name :
      (id : String) (i : Instance)
      → get_by_id id s ≡ ok i
      → (i.id ≡ id) × (get_by_name i.name s ≡ ok i)
  unfolding get_by_id get_by_name
  get_by_id-name id i e =
      let (p, n, g) = pointed (lookup id s.instances) s.heap e in
      let (j, g', u, l) = h.by_ids id p n in
      let v : j ≡ i = same_place s.heap j i p p refl g' g in
      (ap (λ k. k.id) (sym v) ∙ u, rw (ap (λ k. lookup k.name s.by_name) (sym v) ∙ l, g) refl)

  pub get_by_name-id :
      (name : String) (i : Instance)
      → get_by_name name s ≡ ok i
      → (i.name ≡ name) × (get_by_id i.id s ≡ ok i)
  unfolding get_by_id get_by_name
  get_by_name-id name i e =
      let (p, n, g) = pointed (lookup name s.by_name) s.heap e in
      let (j, g', u, l) = h.by_names name p n in
      let v : j ≡ i = same_place s.heap j i p p refl g' g in
      (ap (λ k. k.name) (sym v) ∙ u, rw (ap (λ k. lookup k.id s.instances) (sym v) ∙ l, g) refl)
