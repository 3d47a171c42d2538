-- ===== src/Migration/Wire.antt =====
-- internal/app/migration/service.go and internal/transport/grpc/gateway.go: what of a command to make a
-- guest arrives at its node.
use aurora_old.Base.{String, true, false, Option, none, some, ◌≡◌, refl}
use aurora_old.Base.Int.{pos}
use aurora_old.Base.Assoc.{lookup}
use aurora_old.Node.Types.{Value, object}
use aurora_old.Node.Gateway.{IsInt32, int32_id, int32, create_instance, delete_instance, message_of}
use aurora_old.Compute.Instance.{Instance, type_text}
use aurora_old.Compute.Request.{CreateRequest}
use aurora_old.Compute.Create.{create_command as compute_command}
use aurora_old.Migration.Execute.{Nodes, create_command, delete_command}

int32_zero : int32 (pos 0) ≡ pos 0
unfolding int32
int32_zero = refl

-- A command of the compute service gives the gateway all that it sends to a node: the message for a new
-- instance whose number of processors has 32 bits has the instance's identifier, name, type, sizes,
-- image and configuration. A migration's command for an instance has other keys: of the message
-- that the gateway makes of it, the identifier, the name and the type are the text `<nil>`, the
-- processors, the memory and the storage are 0, and the guest is not started, whatever the instance
-- is; and the source node is asked to delete a guest of the name `<nil>`.
pub message_of-create :
    (show : Value → String) (json : Option Value → String) (v : Nodes) (q : CreateRequest)
    (correlation : String) (i : Instance)
    → IsInt32 i.cpu_cores
    → (message_of show json (compute_command q i correlation)
        ≡ some (
            create_instance record {
              instance_id = i.id;
              instance_name = i.name;
              instance_type = type_text i.instance_type;
              cpu_cores = i.cpu_cores;
              memory_bytes = i.memory_bytes;
              storage_bytes = i.storage_bytes;
              image = i.image;
              config_json = json (some (object i.config));
              start_after_create = q.start_after_create;
            }))
      × (message_of show json (create_command v i)
          ≡ some (
              create_instance record {
                instance_id = "<nil>";
                instance_name = "<nil>";
                instance_type = "<nil>";
                cpu_cores = pos 0;
                memory_bytes = pos 0;
                storage_bytes = pos 0;
                image = i.image;
                config_json = json none;
                start_after_create = false;
              }))
      × (message_of show json (delete_command v i) ≡ some (delete_instance "<nil>" "<nil>" true))
unfolding message_of compute_command create_command delete_command lookup
message_of-create show json v q correlation i h =
    (rw (int32_id i.cpu_cores h) refl, rw int32_zero refl, refl)
