-- ===== src/Migration/Outcome.antt =====
-- internal/app/migration/service.go: how a move ends, by the destination's answer.
use aurora_old.Base.{
  String, ◌==◌, Bool, Bool-cases, inl, inr, true, false, none, some, List, [], ◌∷◌, ◌++◌, keep,
  ◌&&◌, if◌then◌else◌, Result, ok, err, ◌≡◌, ◌∙◌, ap, refl,
}
use aurora_old.Base.Int.{ℤ, pos, quot}
use aurora_old.Base.Assoc.{lookup}
use aurora_old.Node.Types.{Command}
use aurora_old.Compute.Instance.{Instance}
use aurora_old.Compute.Repo.{get_by_id}
use aurora_old.Migration.Repo.{
  Migration, completed, rolled_back, transferring, verifying, with_status, with_progress,
}
use aurora_old.Migration.Execute.{
  Nodes, Moves, was_running, is_cold, failure, stop_command, create_command, start_command,
  delete_command, transferred, rolled, finished, ended, execute_migration,
}
use aurora_old.Migration.Records.{stored_status, owned-node, transferred-lookup}

-- Whether a command deletes a guest.
abbrev pub is_delete : String × Command → Bool
is_delete (node, c) = c.command_type == "delete_instance"

-- The commands that delete a guest.
abbrev pub deletes : List (String × Command) → List (String × Command)
deletes l = keep is_delete l

deletes_other :
    (l : List (String × Command)) (c : String × Command)
    → is_delete c ≡ false
    → deletes (l ++ (c ∷ [])) ≡ deletes l
deletes_other [] c h = rw h refl
deletes_other (x ∷ l) c h = rw (deletes_other l c h) refl

deletes_last :
    (l : List (String × Command)) (c : String × Command)
    → is_delete c ≡ true
    → deletes (l ++ (c ∷ [])) ≡ deletes l ++ (c ∷ [])
deletes_last [] c h = rw h refl
deletes_last (x ∷ l) c h = elim (Bool-cases (is_delete x)) [
  | inl t ↦ rw (t, deletes_last l c h) refl
  | inr t ↦ rw (t, deletes_last l c h) refl
]

module _ (v : Nodes) (now : ℤ) (m : Migration) (i : Instance) where
  transferred-deletes : (w : Moves) → deletes (transferred v now m i w).sent ≡ deletes w.sent
  unfolding transferred stop_command create_command
  transferred-deletes w =
      deletes_other
        (if is_cold m && was_running i
          then w.sent ++ ((m.source_node_id, stop_command v i) ∷ [])
          else w.sent)
        (m.dest_node_id, create_command v i) refl
      ∙ elim (is_cold m && was_running i)
          as (λ b.
            deletes (if b then w.sent ++ ((m.source_node_id, stop_command v i) ∷ []) else w.sent)
            ≡ deletes w.sent) [
              | true ↦ deletes_other w.sent (m.source_node_id, stop_command v i) refl
              | false ↦ refl
            ]

  rolled-deletes : (t : String) (w : Moves) → deletes (rolled v now m i t w).sent ≡ deletes w.sent
  unfolding rolled start_command
  rolled-deletes t w =
      elim (was_running i)
        as (λ b.
          deletes (if b then w.sent ++ ((m.source_node_id, start_command v i) ∷ []) else w.sent)
          ≡ deletes w.sent) [
            | true ↦ deletes_other w.sent (m.source_node_id, start_command v i) refl
            | false ↦ refl
          ]

  finished-deletes :
      (w : Moves)
      → deletes (finished v now m i w).sent
        ≡ deletes w.sent ++ ((m.source_node_id, delete_command v i) ∷ [])
  unfolding finished delete_command
  finished-deletes w = deletes_last w.sent (m.source_node_id, delete_command v i) refl

  -- The record after the first two steps.
  abbrev moving : Migration → Migration
  moving r =
      with_progress now (pos 50) (quot i.storage_bytes 2) i.storage_bytes
        (with_status now transferring (pos 20) "" r)

  finished-lookup :
      (w : Moves) {r : Migration}
      → lookup m.id w.migrations ≡ some r
      → lookup m.id (finished v now m i (transferred v now m i w)).migrations
        ≡ some (
            with_status now completed
              (pos 100)
              ""
              (with_status now verifying (pos 80) "" (moving r)))
  unfolding finished
  finished-lookup w h =
      let a = transferred-lookup v now m i w h in
      stored_status now m.id _ _ _ _ (stored_status now m.id _ _ _ _ a)

  finished-node :
      (w : Moves) {j : Instance}
      → get_by_id i.id w.store ≡ ok j
      → (l : Instance) × (get_by_id i.id (finished v now m i (transferred v now m i w)).store
          ≡ ok l)
        × (l.node_id ≡ m.dest_node_id)
  unfolding finished transferred
  finished-node w g = owned-node v now m i w.store g

  rolled-lookup :
      (t : String) (w : Moves) {r : Migration}
      → lookup m.id w.migrations ≡ some r
      → lookup m.id (rolled v now m i t (transferred v now m i w)).migrations
        ≡ some (with_status now rolled_back (pos 0) t (moving r))
  unfolding rolled
  rolled-lookup t w h = stored_status now m.id _ _ _ _ (transferred-lookup v now m i w h)

  rolled-store :
      (t : String) (w : Moves) → (rolled v now m i t (transferred v now m i w)).store ≡ w.store
  unfolding rolled transferred
  rolled-store t w = refl

  completed_fields :
      (r : Migration)
      → r.completed_at ≡ none
      → let k =
          with_status now completed
            (pos 100)
            ""
            (with_status now verifying (pos 80) "" (moving r)) in
        (k.completed_at ≡ some now) × (k.status ≡ completed)
  unfolding with_status with_progress
  completed_fields r z = (rw z refl, refl)

  rolled_fields :
      (t : String) (r : Migration)
      → r.completed_at ≡ none
      → let k = with_status now rolled_back (pos 0) t (moving r) in
        (k.completed_at ≡ some now) × (k.status ≡ rolled_back) × (k.error ≡ t)
  unfolding with_status with_progress
  rolled_fields t r z = (rw z refl, refl, refl)

  -- The outcome by the answer.
  ended-outcome :
      (w : Moves) {r : Migration} {j : Instance} (answer : Result String (Unit {0}))
      → lookup m.id w.migrations ≡ some r
      → r.completed_at ≡ none
      → get_by_id i.id w.store ≡ ok j
      → let after = ended v now m i answer (transferred v now m i w) in
        (k : Migration) × (lookup m.id after.migrations ≡ some k)
        × (k.completed_at ≡ some now)
        × (answer ≡ ok tt
            → (k.status ≡ completed)
              × ((l : Instance) × (get_by_id i.id after.store ≡ ok l)
                  × (l.node_id ≡ m.dest_node_id))
              × (deletes after.sent
                  ≡ deletes w.sent ++ ((m.source_node_id, delete_command v i) ∷ [])))
        × ((reason : String)
            → answer ≡ err reason
            → (k.status ≡ rolled_back)
              × (k.error ≡ reason)
              × (after.store ≡ w.store)
              × (deletes after.sent ≡ deletes w.sent))
  ended-outcome w {r} {j} (ok x) h z g =
      let t = transferred v now m i w in
      let d =
        finished-deletes t
        ∙ ap (λ l. l ++ ((m.source_node_id, delete_command v i) ∷ [])) (transferred-deletes w) in
      (
        with_status now completed (pos 100) "" (with_status now verifying (pos 80) "" (moving r)),
        finished-lookup w h,
        (completed_fields r z).0,
        λ e. ((completed_fields r z).1, finished-node w g, d),
        λ reason e. cc,
      )
  ended-outcome w {r} {j} (err x) h z g =
      let t = transferred v now m i w in
      (
        with_status now rolled_back (pos 0) x (moving r),
        rolled-lookup x w h,
        (rolled_fields x r z).0,
        λ e. cc,
        λ reason e. (
          (rolled_fields x r z).1,
          (let y : x ≡ reason = cc in (rolled_fields x r z).2 ∙ y),
          rolled-store x w,
          rolled-deletes x t ∙ transferred-deletes w,
        ),
      )

-- For a migration that is stored and not completed before, and an instance that is stored: where the
-- destination makes the guest, the stored migration ends completed, the stored instance belongs
-- to the destination, and one command to delete a guest was sent, the last, to the source;
-- where it does not, the stored migration ends rolled back with the destination's error, the
-- repository of instances is as before, and no command to delete a guest was sent.
pub execute_migration-outcome :
    (v : Nodes) (now : ℤ) (m : Migration) (i : Instance) (w : Moves) {r : Migration} {j : Instance}
    → lookup m.id w.migrations ≡ some r
    → r.completed_at ≡ none
    → get_by_id i.id w.store ≡ ok j
    → let after = execute_migration v now m i w in
      let answer = failure (v.send m.dest_node_id (create_command v i)) in
      (k : Migration) × (lookup m.id after.migrations ≡ some k)
      × (k.completed_at ≡ some now)
      × (answer ≡ ok tt
          → (k.status ≡ completed)
            × ((l : Instance) × (get_by_id i.id after.store ≡ ok l) × (l.node_id ≡ m.dest_node_id))
            × (deletes after.sent
                ≡ deletes w.sent ++ ((m.source_node_id, delete_command v i) ∷ [])))
      × ((reason : String)
          → answer ≡ err reason
          → (k.status ≡ rolled_back)
            × (k.error ≡ reason)
            × (after.store ≡ w.store)
            × (deletes after.sent ≡ deletes w.sent))
unfolding execute_migration
execute_migration-outcome v now m i w h z g =
    ended-outcome v now m i w (failure (v.send m.dest_node_id (create_command v i))) h z g
