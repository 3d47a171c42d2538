-- ===== src/Migration/Tests.antt =====
-- The move of a running guest to another node, which makes it.
use aurora_old.Base.{
  ◌-◌, ◌^◌, String, true, false, Option, none, some, [], ◌∷◌, ◌++◌, ok, err, ◌≡◌, refl, arith,
}
use aurora_old.Base.Int.{pos, negsuc, ◌≤ℤ◌}
use aurora_old.Base.Assoc.{lookup}
use aurora_old.Node.Types.{Value, object}
use aurora_old.Node.Gateway.{create_instance, delete_instance, message_of}
use aurora_old.Compute.Instance.{Instance, container, running, type_text}
use aurora_old.Compute.Repo.{InstanceStore, get_by_id}
use aurora_old.Compute.Request.{CreateRequest}
use aurora_old.Compute.Create.{create_command as compute_command}
use aurora_old.Migration.Repo.{
  Migration, cold, reserving, completed, rolled_back, get_active_for_instance,
}
use aurora_old.Migration.Execute.{
  Nodes, Moves, failure, create_command, delete_command, execute_migration,
}
use aurora_old.Migration.Outcome.{deletes, execute_migration-outcome}
use aurora_old.Migration.Wire.{message_of-create}

abbrev web : Instance
web = record {
  id = "i1";
  user_id = "ann";
  node_id = "n1";
  name = "web";
  instance_type = container;
  status = running;
  cpu_cores = pos 2;
  memory_bytes = pos 1024;
  storage_bytes = pos 4096;
  image = "debian";
  ipv4_address = "";
  ipv6_address = "";
  config = [];
  created_at = pos 0;
  updated_at = pos 0;
}

abbrev move : Migration
move = record {
  id = "m1";
  tenant_id = "ann";
  instance_id = "i1";
  source_node_id = "n1";
  dest_node_id = "n2";
  migration_type = cold;
  status = reserving;
  progress_percent = pos 0;
  bytes_transferred = pos 0;
  total_bytes = pos 0;
  error = "";
  started_at = none;
  completed_at = none;
  created_at = pos 1;
  updated_at = pos 1;
}

abbrev nodes : Nodes
nodes = record {
  send = λ node c. ok record { success = true; error_message = ""; payload = [] };
  correlation = λ n. "c";
  publishes = true;
  records = true;
}

abbrev instances : InstanceStore
instances = record { heap = web ∷ []; instances = ("i1", 0) ∷ []; by_name = ("web", 0) ∷ [] }

abbrev moves : Moves
moves = record {
  migrations = ("m1", move) ∷ [];
  store = instances;
  sent = [];
  events = [];
  audit_logs = [];
}

stored_move : lookup "m1" moves.migrations ≡ some move
unfolding lookup
stored_move = refl

stored_web : get_by_id "i1" instances ≡ ok web
unfolding get_by_id lookup
stored_web = refl

active_move : get_active_for_instance "i1" moves.migrations ≡ some move
unfolding get_active_for_instance
active_move = refl

execute_migration-outcome_example :
    let after = execute_migration nodes (pos 9) move web moves in
    let answer = failure (nodes.send "n2" (create_command nodes web)) in
    (k : Migration) × (lookup "m1" after.migrations ≡ some k)
    × (k.completed_at ≡ some (pos 9))
    × (answer ≡ ok tt
        → (k.status ≡ completed)
          × ((l : Instance) × (get_by_id "i1" after.store ≡ ok l) × (l.node_id ≡ "n2"))
          × (deletes after.sent ≡ deletes [] ++ (("n1", delete_command nodes web) ∷ [])))
    × ((reason : String)
        → answer ≡ err reason
        → (k.status ≡ rolled_back)
          × (k.error ≡ reason)
          × (after.store ≡ instances)
          × (deletes after.sent ≡ deletes []))
execute_migration-outcome_example =
    execute_migration-outcome nodes (pos 9) move web moves stored_move refl stored_web

abbrev request : CreateRequest
request = record {
  name = "web";
  type_name = "container";
  cpu_cores = pos 2;
  memory_bytes = pos 1024;
  storage_bytes = pos 4096;
  image = "debian";
  template_id = "";
  template_slug = "";
  cloud_init = none;
  node_id = "";
  config = [];
  start_after_create = true;
}

-- What prints a value and marshals one.
abbrev shown : Value → String
shown v = "?"

abbrev marshaled : Option Value → String
marshaled v = "{}"

message_of-create_example :
    (message_of shown marshaled (compute_command request web "c")
      ≡ some (
          create_instance record {
            instance_id = "i1";
            instance_name = "web";
            instance_type = type_text container;
            cpu_cores = pos 2;
            memory_bytes = pos 1024;
            storage_bytes = pos 4096;
            image = "debian";
            config_json = marshaled (some (object []));
            start_after_create = true;
          }))
    × (message_of shown marshaled (create_command nodes web)
        ≡ some (
            create_instance record {
              instance_id = "<nil>";
              instance_name = "<nil>";
              instance_type = "<nil>";
              cpu_cores = pos 0;
              memory_bytes = pos 0;
              storage_bytes = pos 0;
              image = "debian";
              config_json = marshaled none;
              start_after_create = false;
            }))
    × (message_of shown marshaled (delete_command nodes web)
        ≡ some (delete_instance "<nil>" "<nil>" true))
message_of-create_example = message_of-create shown marshaled nodes request "c" web (h, h')
  where
    h : negsuc (2 ^ 31 - 1) ≤ℤ pos 2
    h = ground arith

    h' : pos 2 ≤ℤ pos (2 ^ 31 - 1)
    h' = ground arith
