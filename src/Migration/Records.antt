-- ===== src/Migration/Records.antt =====
-- internal/app/migration/service.go: what the writes of a move leave in the two repositories.
use aurora_old.Base.{
  String, Bool-cases, Option-cases, inl, inr, get_elem?, get_elem?-set, set, some, ok, err, ◌≡◌,
  ◌∙◌, ap, refl, arith,
}
use aurora_old.Base.Int.{ℤ, pos, quot}
use aurora_old.Base.Assoc.{Assoc, lookup, lookup-insert_self}
use aurora_old.Compute.Instance.{Instance, running, instance_not_found}
use aurora_old.Compute.Repo.{
  InstanceStore, get_by_id, write_at, with_node, update_node_id,
  with_status as with_instance_status, update_status as update_instance_status,
}
use aurora_old.Compute.Sides.{get_elem?-bound}
use aurora_old.Migration.Repo.{
  Migration, MigrationStatus, transferring, update_status, update_progress, with_status,
  with_progress,
}
use aurora_old.Migration.Execute.{Nodes, Moves, was_running, transferred, owned}

pub stored_status :
    (now : ℤ) (id : String) (st : MigrationStatus) (p : ℤ) (t : String) (s : Assoc Migration)
    {m : Migration}
    → lookup id s ≡ some m
    → lookup id (update_status now id st p t s).0 ≡ some (with_status now st p t m)
unfolding update_status
stored_status now id st p t s {m} h =
    rw (h, lookup-insert_self id (with_status now st p t m) s) refl

pub stored_progress :
    (now : ℤ) (id : String) (p d t : ℤ) (s : Assoc Migration) {m : Migration}
    → lookup id s ≡ some m
    → lookup id (update_progress now id p d t s).0 ≡ some (with_progress now p d t m)
unfolding update_progress
stored_progress now id p d t s {m} h =
    rw (h, lookup-insert_self id (with_progress now p d t m) s) refl

-- A write through the pointer is read back.
written :
    (f : Instance → Instance) (id : String) (s : InstanceStore) {j : Instance}
    → get_by_id id s ≡ ok j
    → get_by_id id (write_at f (lookup id s.instances) s).0 ≡ ok (f j)
unfolding get_by_id
written f id s {j} h = elim (Option-cases (lookup id s.instances)) [
  | inl e ↦ let c : err instance_not_found ≡ ok j = rw e at h in cc
  | inr (p, e) ↦ elim (Option-cases (get_elem? s.heap p)) [
    | inl g ↦ let c : err instance_not_found ≡ ok j = rw (e, g) at h in cc
    | inr (x, g) ↦
        let c : ok x ≡ ok j = rw (e, g) at h in
        let y : x ≡ j = cc in
        let b : get_elem? (set s.heap p (f x)) p ≡ some (f x) =
          get_elem?-set s.heap p p (f x) (get_elem?-bound _ _ x g) ∙ ground arith in
        rw (e, write_at, g, e, b) (ap (λ z. ok (f z)) y)
  ]
]

module _ (v : Nodes) (now : ℤ) (m : Migration) (i : Instance) where
  pub owned-node :
      (s : InstanceStore) {j : Instance}
      → get_by_id i.id s ≡ ok j
      → (k : Instance) × (get_by_id i.id (owned v now m i s) ≡ ok k) × (k.node_id ≡ m.dest_node_id)
  unfolding owned update_node_id update_instance_status with_node with_instance_status
  owned-node s {j} h =
      let a = written (with_node now m.dest_node_id) i.id s h in
      elim (Bool-cases (was_running i)) [
        | inl t ↦
            let b =
              written (with_instance_status now running i.ipv4_address i.ipv6_address) i.id _ a in
            (
              with_instance_status now running i.ipv4_address i.ipv6_address
                  (with_node now m.dest_node_id j),
              rw t b,
              refl,
            )
        | inr t ↦ (with_node now m.dest_node_id j, rw t a, refl)
      ]

  pub transferred-lookup :
      (w : Moves) {r : Migration}
      → lookup m.id w.migrations ≡ some r
      → lookup m.id (transferred v now m i w).migrations
        ≡ some (
            with_progress now
              (pos 50)
              (quot i.storage_bytes 2)
              i.storage_bytes
              (with_status now transferring (pos 20) "" r))
  unfolding transferred
  transferred-lookup w h =
      stored_progress now m.id _ _ _ _ (stored_status now m.id _ _ _ w.migrations h)
