-- ===== src/Compute/Writes.antt =====
-- internal/app/compute/service.go: sequences of the calls that mean to change a guest.
use aurora_old.Base.{String, Bool, List, [], ◌∷◌}
use aurora_old.Base.Int.{ℤ}
use aurora_old.Identity.Subject.{Subject}
use aurora_old.Compute.Request.{Services}
use aurora_old.Compute.Create.{Compute}
use aurora_old.Compute.Guest.{
  Paths, write_guest_file, delete_guest_file, create_backup, restore_backup, delete_backup,
  create_snapshot, restore_snapshot, delete_snapshot,
}

-- A call that means to change a guest, its backups or its snapshots; identifiers that a creation
-- draws come first.
pub data GuestCall : Type 0 where
  write_call : String → String → ℤ → GuestCall
  remove_call : String → String → GuestCall
  backup_call : String → String → String → GuestCall
  restore_call : String → String → GuestCall
  drop_backup_call : String → String → GuestCall
  snapshot_call : String → String → String → Bool → GuestCall
  revert_call : String → String → GuestCall
  drop_snapshot_call : String → String → GuestCall

abbrev pub run_guest : Services → Paths → Subject → ℤ → GuestCall → Compute → Compute
run_guest v f sub now (write_call id path size) w = (write_guest_file v f sub now id path size w).0
run_guest v f sub now (remove_call id path) w = (delete_guest_file v f sub now id path w).0
run_guest v f sub now (backup_call new_id id name) w =
    (create_backup v f sub now new_id id name w).0
run_guest v f sub now (restore_call id backup) w = (restore_backup v f sub now id backup w).0
run_guest v f sub now (drop_backup_call id backup) w = (delete_backup v f sub now id backup w).0
run_guest v f sub now (snapshot_call new_id id name b) w =
    (create_snapshot v f sub now new_id id name b w).0
run_guest v f sub now (revert_call id snapshot) w = (restore_snapshot v f sub now id snapshot w).0
run_guest v f sub now (drop_snapshot_call id snapshot) w =
    (delete_snapshot v f sub now id snapshot w).0

abbrev pub run_guests : Services → Paths → List (Subject × ℤ × GuestCall) → Compute → Compute
run_guests v f [] w = w
run_guests v f ((sub, now, c) ∷ cs) w = run_guests v f cs (run_guest v f sub now c w)
