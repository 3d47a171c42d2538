-- ===== src/Migration/Execute.antt =====
-- internal/app/migration/service.go: executeMigration, the move itself, which runs after the record of
-- the migration is made. What a node answers to a command is an argument; a call's own error is a text.
-- The commands that were sent are kept in their order, an event and an audit record the last one
-- first; `now` stands for all readings of the clock in one move.
use aurora_old.Base.{
  ℕ, String, Bool, true, false, ◌&&◌, List, [], ◌∷◌, ◌++◌, if◌then◌else◌, Result, ok, err,
}
use aurora_old.Base.Int.{ℤ, pos, quot}
use aurora_old.Base.Assoc.{Assoc}
use aurora_old.Job.World.{AuditLog, Event}
use aurora_old.Node.Types.{Command, CommandResult, text, int, flag}
use aurora_old.Compute.Instance.{Instance, type_text, running, same_status}
use aurora_old.Compute.Repo.{InstanceStore, update_node_id, update_status as update_instance_status}
use aurora_old.Migration.Repo.{
  Migration, live, cold, transferring, verifying, completed, rolled_back, update_status,
  update_progress,
}

pub record Nodes : Type 0 where
  pub send : String → Command → Result String CommandResult
  pub correlation : ℕ → String
  pub publishes : Bool
  pub records : Bool

pub record Moves : Type 0 where
  pub migrations : Assoc Migration
  pub store : InstanceStore
  pub sent : List (String × Command)
  pub events : List Event
  pub audit_logs : List AuditLog

abbrev pub was_running : Instance → Bool
was_running i = same_status i.status running

abbrev pub is_cold : Migration → Bool
is_cold m = elim m.migration_type [ live ↦ false | cold ↦ true ]

-- The error of the call, or else the one that a failed result reports.
abbrev pub failure : Result String CommandResult → Result String (Unit {0})
failure (err e) = err e
failure (ok r) = if r.success then ok tt else err r.error_message

module _ (v : Nodes) (i : Instance) where
  unfoldable pub stop_command : Command
  stop_command = record {
    correlation_id = v.correlation 0;
    command_type = "stop_instance";
    payload = ("instanceName", text i.name) ∷ ("force", flag false) ∷ [];
  }

  unfoldable pub create_command : Command
  create_command = record {
    correlation_id = v.correlation 1;
    command_type = "create_instance";
    payload =
        ("instanceName", text i.name)
        ∷ ("instanceType", text (type_text i.instance_type))
        ∷ ("cpuCores", int i.cpu_cores)
        ∷ ("memoryBytes", int i.memory_bytes)
        ∷ ("storageBytes", int i.storage_bytes)
        ∷ ("image", text i.image)
        ∷ ("startAfterCreate", flag (was_running i))
        ∷ [];
  }

  unfoldable pub start_command : Command
  start_command = record {
    correlation_id = v.correlation 2;
    command_type = "start_instance";
    payload = ("instanceName", text i.name) ∷ [];
  }

  unfoldable pub delete_command : Command
  delete_command = record {
    correlation_id = v.correlation 2;
    command_type = "delete_instance";
    payload = ("instanceName", text i.name) ∷ ("force", flag true) ∷ [];
  }

module _ (v : Nodes) (now : ℤ) (m : Migration) (i : Instance) where
  -- The first two steps, up to the command that makes the guest on its new node.
  unfoldable pub transferred : Moves → Moves
  transferred w =
      let started = (update_status now m.id transferring (pos 20) "" w.migrations).0 in
      record w {
        migrations =
            (update_progress now m.id (pos 50) (quot i.storage_bytes 2) i.storage_bytes started).0;
        sent =
            (if is_cold m && was_running i
              then w.sent ++ ((m.source_node_id, stop_command v i) ∷ [])
              else w.sent)
            ++ ((m.dest_node_id, create_command v i) ∷ []);
      }

  unfoldable pub rolled : String → Moves → Moves
  rolled reason w = record w {
    migrations = (update_status now m.id rolled_back (pos 0) reason w.migrations).0;
    sent = if was_running i then w.sent ++ ((m.source_node_id, start_command v i) ∷ []) else w.sent;
  }

  -- The guest's new owner in the repository of instances.
  unfoldable pub owned : InstanceStore → InstanceStore
  owned s =
      let s' = (update_node_id now i.id m.dest_node_id s).0 in
      if was_running i
      then (update_instance_status now i.id running i.ipv4_address i.ipv6_address s').0
      else s'

  unfoldable pub migrated_event : Event
  migrated_event = record {
    tenant_id = i.user_id;
    event_type = "instance.migrated";
    resource_type = "instance";
    resource_id = i.id;
    actor_id = "";
    payload =
        ("migrationId", m.id)
        ∷ ("sourceNodeId", m.source_node_id)
        ∷ ("destNodeId", m.dest_node_id)
        ∷ [];
  }

  unfoldable pub migrated_log : AuditLog
  migrated_log = record {
    actor_id = i.user_id;
    action = "instance.migrated";
    resource_type = "instance";
    resource_id = i.id;
    details =
        ("migrationId", m.id)
        ∷ ("sourceNodeId", m.source_node_id)
        ∷ ("destNodeId", m.dest_node_id)
        ∷ [];
    created_at = now;
  }

  -- The steps from the third.
  unfoldable pub finished : Moves → Moves
  finished w =
      let verified = (update_status now m.id verifying (pos 80) "" w.migrations).0 in
      record {
        migrations = (update_status now m.id completed (pos 100) "" verified).0;
        store = owned w.store;
        sent = w.sent ++ ((m.source_node_id, delete_command v i) ∷ []);
        events = if v.publishes then migrated_event ∷ w.events else w.events;
        audit_logs = if v.records then migrated_log ∷ w.audit_logs else w.audit_logs;
      }

  abbrev pub ended : Result String (Unit {0}) → Moves → Moves
  ended (err reason) w = rolled reason w
  ended (ok _) w = finished w

  unfoldable pub execute_migration : Moves → Moves
  execute_migration w = ended (failure (v.send m.dest_node_id (create_command v i))) (transferred w)
