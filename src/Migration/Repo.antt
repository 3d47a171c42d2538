-- ===== src/Migration/Repo.antt =====
-- internal/domain/migration/migration.go and internal/infra/memory/migration_repo.go: the records of
-- migrations and their repository, without the preflight that a record shows. A type of another
-- text than `cold` is treated as `live`. The mutex makes each call one step.
use aurora_old.Base.{
  ℕ, eqb, String, ◌==◌, Bool, not, ◌&&◌, ◌||◌, Option, none, some, [], ◌∷◌, if◌then◌else◌, Result,
  ok, err,
}
use aurora_old.Base.Int.{ℤ}
use aurora_old.Base.Assoc.{Assoc, lookup, insert}

pub data MigrationStatus : Type 0 where
  pending validating reserving transferring verifying : MigrationStatus
  completed failed canceled rolled_back : MigrationStatus

abbrev pub status_code : MigrationStatus → ℕ
status_code pending = 0
status_code validating = 1
status_code reserving = 2
status_code transferring = 3
status_code verifying = 4
status_code completed = 5
status_code failed = 6
status_code canceled = 7
status_code rolled_back = 8

abbrev pub same_status : MigrationStatus → MigrationStatus → Bool
same_status a b = eqb (status_code a) (status_code b)

abbrev pub is_terminal : MigrationStatus → Bool
is_terminal s =
    same_status s completed
    || (same_status s failed || (same_status s canceled || same_status s rolled_back))

pub data MigrationType : Type 0 where
  live cold : MigrationType

pub record Migration : Type 0 where
  pub id : String
  pub tenant_id : String
  pub instance_id : String
  pub source_node_id : String
  pub dest_node_id : String
  pub migration_type : MigrationType
  pub status : MigrationStatus
  pub progress_percent : ℤ
  pub bytes_transferred : ℤ
  pub total_bytes : ℤ
  pub error : String
  pub started_at : Option ℤ
  pub completed_at : Option ℤ
  pub created_at : ℤ
  pub updated_at : ℤ

pub data MigrationError : Type 0 where
  migration_not_found : MigrationError

unfoldable pub get_active_for_instance : String → Assoc Migration → Option Migration
get_active_for_instance instance_id [] = none
get_active_for_instance instance_id ((id, m) ∷ rest) =
    if m.instance_id == instance_id && not (is_terminal m.status)
    then some m
    else get_active_for_instance instance_id rest

-- A time that is already set is kept.
abbrev pub set_once : Bool → ℤ → Option ℤ → Option ℤ
set_once b now (some t) = some t
set_once b now none = if b then some now else none

unfoldable pub with_status : ℤ → MigrationStatus → ℤ → String → Migration → Migration
with_status now status progress text m = record m {
  status = status;
  progress_percent = progress;
  error = text;
  updated_at = now;
  started_at = set_once (same_status status transferring) now m.started_at;
  completed_at = set_once (is_terminal status) now m.completed_at;
}

unfoldable pub with_progress : ℤ → ℤ → ℤ → ℤ → Migration → Migration
with_progress now progress transferred total m = record m {
  progress_percent = progress;
  bytes_transferred = transferred;
  total_bytes = total;
  updated_at = now;
}

abbrev pub changed :
    (Migration → Migration)
    → String
    → Option Migration
    → Assoc Migration
    → Assoc Migration × Result MigrationError (Unit {0})
changed f id none s = (s, err migration_not_found)
changed f id (some m) s = (insert id (f m) s, ok tt)

unfoldable pub update_status :
    ℤ
    → String
    → MigrationStatus
    → ℤ
    → String
    → Assoc Migration
    → Assoc Migration × Result MigrationError (Unit {0})
update_status now id status progress text s =
    changed (with_status now status progress text) id (lookup id s) s

unfoldable pub update_progress :
    ℤ → String → ℤ → ℤ → ℤ → Assoc Migration → Assoc Migration × Result MigrationError (Unit {0})
update_progress now id progress transferred total s =
    changed (with_progress now progress transferred total) id (lookup id s) s
