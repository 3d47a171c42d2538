-- ===== src/Node/Gateway.antt =====
-- internal/transport/grpc/gateway.go: the message that grpcStreamSender.Send makes of a command to an
-- instance. The other commands are left out. How `%v` prints a value that is no text, and
-- `json.Marshal`, are arguments.
use aurora_old.Base.{
  ℕ, ◌-◌, ◌%◌, ◌^◌, ltb, String, ◌==◌, Bool, false, Option, none, some, if◌then◌else◌, ◌≡◌, arith,
}
use aurora_old.Base.Int.{ℤ, pos, negsuc, ◌≤ℤ◌}
use aurora_old.Base.Assoc.{lookup}
use aurora_old.Node.Types.{Value, text, int, flag, object, Command}

bits32 : ℤ → ℕ
bits32 (pos n) = n % 2 ^ 32
bits32 (negsuc n) = 2 ^ 32 - 1 - n % 2 ^ 32

-- Go's conversion to 32 bits.
unfoldable pub int32 : ℤ → ℤ
unfolding bits32
int32 z = if ltb (bits32 z) (2 ^ 31) then pos (bits32 z) else negsuc (2 ^ 32 - 1 - bits32 z)

abbrev pub IsInt32 : ℤ → Type 0
IsInt32 z = (negsuc (2 ^ 31 - 1) ≤ℤ z) × (z ≤ℤ pos (2 ^ 31 - 1))

-- A value in range is left alone.
pub int32_id : (z : ℤ) → IsInt32 z → int32 z ≡ z
unfolding int32
int32_id (pos n) h = ground arith
int32_id (negsuc n) h = ground arith

pub record CreateMessage : Type 0 where
  pub instance_id : String
  pub instance_name : String
  pub instance_type : String
  pub cpu_cores : ℤ
  pub memory_bytes : ℤ
  pub storage_bytes : ℤ
  pub image : String
  pub config_json : String
  pub start_after_create : Bool

pub record SpecMessage : Type 0 where
  pub instance_id : String
  pub instance_name : String
  pub cpu_cores : ℤ
  pub memory_bytes : ℤ
  pub storage_bytes : ℤ

-- The instance's identifier and name, and whether it is forced.
pub data ServerMessage : Type 0 where
  create_instance : CreateMessage → ServerMessage
  start_instance get_instance_metrics : String → String → ServerMessage
  stop_instance restart_instance delete_instance : String → String → Bool → ServerMessage
  update_instance_spec : SpecMessage → ServerMessage

abbrev pub to_int : Option Value → ℤ
to_int none = pos 0
to_int (some (text s)) = pos 0
to_int (some (int z)) = z
to_int (some (flag b)) = pos 0
to_int (some (object o)) = pos 0

abbrev pub to_bool : Option Value → Bool
to_bool none = false
to_bool (some (text s)) = false
to_bool (some (int z)) = false
to_bool (some (flag b)) = b
to_bool (some (object o)) = false

-- `fmt.Sprintf("%v", v)`, where a missing key is nil.
abbrev pub printed : (Value → String) → Option Value → String
printed show none = "<nil>"
printed show (some (text s)) = s
printed show (some (int z)) = show (int z)
printed show (some (flag b)) = show (flag b)
printed show (some (object o)) = show (object o)

module _ (show : Value → String) (json : Option Value → String) (c : Command) where
  abbrev id_of : String
  id_of = printed show (lookup "instance_id" c.payload)

  abbrev name_of : String
  name_of = printed show (lookup "name" c.payload)

  abbrev forced : Bool
  forced = to_bool (lookup "force" c.payload)

  unfoldable pub message_of : Option ServerMessage
  message_of =
      if c.command_type == "create_instance"
      then some (
          create_instance record {
            instance_id = id_of;
            instance_name = name_of;
            instance_type = printed show (lookup "type" c.payload);
            cpu_cores = int32 (to_int (lookup "cpu_cores" c.payload));
            memory_bytes = to_int (lookup "memory_bytes" c.payload);
            storage_bytes = to_int (lookup "storage_bytes" c.payload);
            image = printed show (lookup "image" c.payload);
            config_json = json (lookup "config" c.payload);
            start_after_create = to_bool (lookup "start_after_create" c.payload);
          })
      else if c.command_type == "start_instance"
      then some (start_instance id_of name_of)
      else if c.command_type == "stop_instance"
      then some (stop_instance id_of name_of forced)
      else if c.command_type == "restart_instance"
      then some (restart_instance id_of name_of forced)
      else if c.command_type == "delete_instance"
      then some (delete_instance id_of name_of forced)
      else if c.command_type == "update_instance_spec"
      then some (
          update_instance_spec record {
            instance_id = id_of;
            instance_name = name_of;
            cpu_cores = int32 (to_int (lookup "cpu_cores" c.payload));
            memory_bytes = to_int (lookup "memory_bytes" c.payload);
            storage_bytes = to_int (lookup "storage_bytes" c.payload);
          })
      else if c.command_type == "get_instance_metrics"
      then some (get_instance_metrics id_of name_of)
      else none
