-- ===== src/Compute/Guest.antt =====
-- internal/app/compute/service.go and internal/domain/compute/files.go: the files, backups and snapshots of a guest.
-- The functions of Go's strings and path packages, and the texts of numbers, are arguments.
use Prim.Native.String.{◌++◌, count}
use aurora_old.Base.{
  ◌*◌, ◌^◌, String, ◌==◌, Bool, true, false, not, List, [], ◌∷◌, if◌then◌else◌, Result, ok, err,
  ◌>>=◌, fail_if,
}
use aurora_old.Base.Int.{ℤ, pos, ◌-ℤ◌, ltb_ℤ, quot}
use aurora_old.Identity.Subject.{Subject}
use aurora_old.Compute.Instance.{Instance, ComputeError, invalid_path, file_too_large}
use aurora_old.Compute.Request.{Services}
use aurora_old.Compute.Create.{Compute, audited}
use aurora_old.Compute.Service.{loaded}

pub record Paths : Type 0 where
  pub trim : String → String
  pub is_rooted : String → Bool
  pub clean : String → String
  pub has_dots : String → Bool
  pub unix_text : ℤ → String

pub record GuestFileInfo : Type 0 where
  pub path : String
  pub name : String
  pub is_dir : Bool
  pub size_bytes : ℤ
  pub mode : String
  pub mod_time : ℤ

pub record InstanceBackup : Type 0 where
  pub id : String
  pub instance_id : String
  pub name : String
  pub size_bytes : ℤ
  pub status : String
  pub created_at : ℤ

pub record InstanceSnapshot : Type 0 where
  pub id : String
  pub instance_id : String
  pub name : String
  pub stateful : Bool
  pub size_bytes : ℤ
  pub created_at : ℤ

abbrev rooted : Paths → String → String
rooted f p = if not (f.is_rooted p) then "/" ++ p else p

unfoldable pub clean_guest_path : Paths → String → Result ComputeError String
clean_guest_path f p =
    if f.trim p == ""
    then ok "/"
    else if f.has_dots (f.clean (rooted f (f.trim p)))
    then err invalid_path
    else ok (f.clean (rooted f (f.trim p)))

abbrev directory : String → String → String → ℤ → GuestFileInfo
directory path name mode now = record {
  path = path;
  name = name;
  is_dir = true;
  size_bytes = pos 0;
  mode = mode;
  mod_time = now;
}

abbrev file : String → String → ℤ → ℤ → GuestFileInfo
file path name size now = record {
  path = path;
  name = name;
  is_dir = false;
  size_bytes = size;
  mode = "-rw-r--r--";
  mod_time = now;
}

-- The same entries for every guest; `count` is `len` where a name is ASCII.
unfoldable pub guest_entries : ℤ → Instance → String → List GuestFileInfo
guest_entries now i path =
    if path == "/"
    then directory "/bin" "bin" "drwxr-xr-x" now
      ∷ directory "/etc" "etc" "drwxr-xr-x" now
      ∷ directory "/home" "home" "drwxr-xr-x" now
      ∷ directory "/root" "root" "drwx------" now
      ∷ directory "/usr" "usr" "drwxr-xr-x" now
      ∷ directory "/var" "var" "drwxr-xr-x" now
      ∷ []
    else if path == "/etc"
    then file "/etc/hostname" "hostname" (pos (count i.name)) now
      ∷ file "/etc/hosts" "hosts" (pos 250) now
      ∷ file "/etc/motd" "motd" (pos 120) now
      ∷ file "/etc/os-release" "os-release" (pos 380) now
      ∷ []
    else if path == "/root"
    then file "/root/.bashrc" ".bashrc" (pos 3771) now
      ∷ file "/root/.profile" ".profile" (pos 807) now
      ∷ []
    else []

unfoldable pub guest_content : Instance → String → String
guest_content i path =
    if path == "/etc/hostname"
    then i.name ++ "\n"
    else if path == "/etc/motd"
    then "Welcome to Project Aurora Cloud VPS (" ++ (i.name ++ ")!\n")
    else if path == "/etc/os-release"
    then "NAME=\"Project Aurora Guest\"\nVERSION=\"1.0\"\nID=aurora\n"
    else "# File: " ++ (path ++ ("\n# Instance: " ++ (i.name ++ "\n")))

module _ (v : Services) (f : Paths) (sub : Subject) (now : ℤ) where
  -- The audit record at the end of a call, and the value that it returns.
  abbrev pub logged {ℓ} :
      {A : Type ℓ}
      → String
      → String
      → List (String × String)
      → Compute
      → Result ComputeError A
      → Compute × Result ComputeError A
  logged action id details w (err e) = (w, err e)
  logged action id details w (ok a) =
      (record w { audit_logs = audited sub action now id details w.audit_logs }, ok a)

  abbrev pub at_path : String → String → String → Compute → Result ComputeError (Instance × String)
  at_path action id path w = do i ← loaded v sub action id w; p ← clean_guest_path f path; ok (i, p)

  abbrev path_of : Result ComputeError (Instance × String) → List (String × String)
  path_of (err e) = []
  path_of (ok (i, p)) = ("path", p) ∷ []

  abbrev pub files_at :
      Result ComputeError (Instance × String) → Result ComputeError (List GuestFileInfo)
  files_at (err e) = err e
  files_at (ok (i, p)) = ok (guest_entries now i p)

  -- `ListGuestFiles`; the number of entries is left out of the record.
  unfoldable pub list_guest_files :
      String → String → Compute → Compute × Result ComputeError (List GuestFileInfo)
  list_guest_files id path w =
      let r = at_path "instance:files:read" id path w in
      logged "instance.files.list" id (path_of r) w (files_at r)

  abbrev pub content_at : Result ComputeError (Instance × String) → Result ComputeError String
  content_at (err e) = err e
  content_at (ok (i, p)) = ok (guest_content i p)

  -- `ReadGuestFile`; the size is left out of the record.
  unfoldable pub read_guest_file : String → String → Compute → Compute × Result ComputeError String
  read_guest_file id path w =
      let r = at_path "instance:files:read" id path w in
      logged "instance.files.read" id (path_of r) w (content_at r)

  abbrev fits : ℤ → Result ComputeError (Instance × String) → Result ComputeError (Unit {0})
  fits size (err e) = err e
  fits size (ok _) = fail_if (ltb_ℤ (pos (100 * 2 ^ 20)) size) file_too_large

  -- `WriteGuestFile`, by the size of its content; whether it is a directory is left out of the record.
  unfoldable pub write_guest_file :
      String → String → ℤ → Compute → Compute × Result ComputeError (Unit {0})
  write_guest_file id path size w =
      let r = at_path "instance:files:write" id path w in
      logged "instance.files.write" id (path_of r) w (fits size r)

  abbrev below_root : Result ComputeError (Instance × String) → Result ComputeError (Unit {0})
  below_root (err e) = err e
  below_root (ok (i, p)) = fail_if (p == "/") invalid_path

  unfoldable pub delete_guest_file :
      String → String → Compute → Compute × Result ComputeError (Unit {0})
  delete_guest_file id path w =
      let r = at_path "instance:files:write" id path w in
      logged "instance.files.delete" id (path_of r) w (below_root r)

  unfoldable pub list_backups : String → Compute → Result ComputeError (List InstanceBackup)
  list_backups id w = do
    i ← loaded v sub "instance:read" id w
    ok (
        record {
          id = "backup-" ++ (id ++ "-01");
          instance_id = id;
          name = "automatic-daily-backup";
          size_bytes = quot i.storage_bytes 4;
          status = "ready";
          created_at = now -ℤ pos (24 * (3600 * 10 ^ 9));
        }
        ∷ [])

  abbrev default_name : String → String → Instance → String
  default_name kind name i =
      if f.trim name == "" then kind ++ (i.name ++ ("-" ++ f.unix_text now)) else name

  -- The two fresh identifiers are arguments.
  unfoldable pub create_backup :
      String → String → String → Compute → Compute × Result ComputeError InstanceBackup
  create_backup new_id id name w =
      logged "instance.backup.created" id (("backupId", new_id) ∷ []) w (do
        i ← loaded v sub "instance:update" id w
        ok (record {
          id = new_id;
          instance_id = id;
          name = default_name "backup-" name i;
          size_bytes = quot i.storage_bytes 4;
          status = "ready";
          created_at = now;
        }))

  abbrev allowed_update : String → Compute → Result ComputeError (Unit {0})
  allowed_update id w = do i ← loaded v sub "instance:update" id w; ok tt

  unfoldable pub restore_backup :
      String → String → Compute → Compute × Result ComputeError (Unit {0})
  restore_backup id backup w =
      logged "instance.backup.restored" id (("backupId", backup) ∷ []) w (allowed_update id w)

  unfoldable pub delete_backup :
      String → String → Compute → Compute × Result ComputeError (Unit {0})
  delete_backup id backup w =
      logged "instance.backup.deleted" id (("backupId", backup) ∷ []) w (allowed_update id w)

  unfoldable pub list_snapshots : String → Compute → Result ComputeError (List InstanceSnapshot)
  list_snapshots id w = do
    i ← loaded v sub "instance:read" id w
    ok (
        record {
          id = "snap-" ++ (id ++ "-init");
          instance_id = id;
          name = "initial-provisioning-state";
          stateful = false;
          size_bytes = quot i.storage_bytes 10;
          created_at = i.created_at;
        }
        ∷ [])

  unfoldable pub create_snapshot :
      String → String → String → Bool → Compute → Compute × Result ComputeError InstanceSnapshot
  create_snapshot new_id id name stateful w =
      logged "instance.snapshot.created" id (("snapshotId", new_id) ∷ []) w (do
        i ← loaded v sub "instance:update" id w
        ok (record {
          id = new_id;
          instance_id = id;
          name = default_name "snap-" name i;
          stateful = stateful;
          size_bytes = quot i.storage_bytes 10;
          created_at = now;
        }))

  unfoldable pub restore_snapshot :
      String → String → Compute → Compute × Result ComputeError (Unit {0})
  restore_snapshot id snapshot w =
      logged "instance.snapshot.restored" id (("snapshotId", snapshot) ∷ []) w (allowed_update id w)

  unfoldable pub delete_snapshot :
      String → String → Compute → Compute × Result ComputeError (Unit {0})
  delete_snapshot id snapshot w =
      logged "instance.snapshot.deleted" id (("snapshotId", snapshot) ∷ []) w (allowed_update id w)
