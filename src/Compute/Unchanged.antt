-- ===== src/Compute/Unchanged.antt =====
-- internal/app/compute/service.go: what the writes to a guest change of what is read of it.
use aurora_old.Base.{String, List, [], ◌∷◌, Result, ok, err, ◌≡◌, ◌∙◌, ap, sym, refl}
use aurora_old.Base.Int.{ℤ}
use aurora_old.Identity.Subject.{Subject}
use aurora_old.Compute.Instance.{ComputeError}
use aurora_old.Compute.Request.{Services}
use aurora_old.Compute.Create.{Compute}
use aurora_old.Compute.Service.{loaded}
use aurora_old.Compute.Guest.{
  Paths, logged, at_path, files_at, content_at, list_guest_files, read_guest_file, write_guest_file,
  delete_guest_file, list_backups, create_backup, restore_backup, delete_backup, list_snapshots,
  create_snapshot, restore_snapshot, delete_snapshot,
}
use aurora_old.Compute.Writes.{
  GuestCall, write_call, remove_call, backup_call, restore_call, drop_backup_call, snapshot_call,
  revert_call, drop_snapshot_call, run_guest, run_guests,
}

module _ (v : Services) (f : Paths) (sub : Subject) (now : ℤ) where
  logged-store {ℓ} :
      {A : Type ℓ} (action id : String) (d : List (String × String)) (w : Compute)
      (r : Result ComputeError A)
      → (logged v f sub now action id d w r).0.store ≡ w.store
  logged-store action id d w (ok a) = refl
  logged-store action id d w (err e) = refl

  logged-result {ℓ} :
      {A : Type ℓ} (action id : String) (d : List (String × String)) (w : Compute)
      (r : Result ComputeError A)
      → (logged v f sub now action id d w r).1 ≡ r
  logged-result action id d w (ok a) = refl
  logged-result action id d w (err e) = refl

  run_guest-store : (c : GuestCall) (w : Compute) → (run_guest v f sub now c w).store ≡ w.store
  unfolding write_guest_file delete_guest_file create_backup restore_backup delete_backup
      create_snapshot restore_snapshot delete_snapshot
  run_guest-store (write_call id path size) w = logged-store _ _ _ w _
  run_guest-store (remove_call id path) w = logged-store _ _ _ w _
  run_guest-store (backup_call new_id id name) w = logged-store _ _ _ w _
  run_guest-store (restore_call id backup) w = logged-store _ _ _ w _
  run_guest-store (drop_backup_call id backup) w = logged-store _ _ _ w _
  run_guest-store (snapshot_call new_id id name b) w = logged-store _ _ _ w _
  run_guest-store (revert_call id snapshot) w = logged-store _ _ _ w _
  run_guest-store (drop_snapshot_call id snapshot) w = logged-store _ _ _ w _

  at_path-store :
      (action id path : String) (w w' : Compute)
      → w'.store ≡ w.store
      → at_path v f sub now action id path w' ≡ at_path v f sub now action id path w
  unfolding loaded
  at_path-store action id path w w' e = rw e refl

  read-store :
      (id path : String) (w w' : Compute)
      → w'.store ≡ w.store
      → (read_guest_file v f sub now id path w').1 ≡ (read_guest_file v f sub now id path w).1
  unfolding read_guest_file
  read-store id path w w' e =
      logged-result _ _ _ w' _
      ∙ ap (content_at v f sub now) (at_path-store "instance:files:read" id path w w' e)
      ∙ sym (logged-result _ _ _ w _)

  list-store :
      (id path : String) (w w' : Compute)
      → w'.store ≡ w.store
      → (list_guest_files v f sub now id path w').1 ≡ (list_guest_files v f sub now id path w).1
  unfolding list_guest_files
  list-store id path w w' e =
      logged-result _ _ _ w' _
      ∙ ap (files_at v f sub now) (at_path-store "instance:files:read" id path w w' e)
      ∙ sym (logged-result _ _ _ w _)

run_guests-store :
    (v : Services) (f : Paths) (cs : List (Subject × ℤ × GuestCall)) (w : Compute)
    → (run_guests v f cs w).store ≡ w.store
run_guests-store v f [] w = refl
run_guests-store v f ((sub, now, c) ∷ cs) w =
    run_guests-store v f cs (run_guest v f sub now c w) ∙ run_guest-store v f sub now c w

-- After any calls, by any callers, that write or remove files of a guest or create, restore or delete
-- its backups or snapshots: each file reads, each directory, the backups and the snapshots list as
-- before these calls.
pub read_guest_file-calls :
    (v : Services) (f : Paths) (cs : List (Subject × ℤ × GuestCall)) (w : Compute) (sub : Subject)
    (now : ℤ) (id path : String)
    → let w' = run_guests v f cs w in
      ((read_guest_file v f sub now id path w').1 ≡ (read_guest_file v f sub now id path w).1)
      × ((list_guest_files v f sub now id path w').1 ≡ (list_guest_files v f sub now id path w).1)
      × (list_backups v f sub now id w' ≡ list_backups v f sub now id w)
      × (list_snapshots v f sub now id w' ≡ list_snapshots v f sub now id w)
unfolding list_backups list_snapshots loaded
read_guest_file-calls v f cs w sub now id path =
    let e = run_guests-store v f cs w in
    (
      read-store v f sub now id path w _ e,
      list-store v f sub now id path w _ e,
      rw e refl,
      rw e refl,
    )
