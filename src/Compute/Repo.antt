-- ===== src/Compute/Repo.antt =====
-- internal/infra/memory/instance_repo.go: `instances` and `byName` hold pointers to the same objects, so
-- a write by one map is read by the other. `heap` is the objects in the order of their creation, and
-- the maps hold positions in it. The mutex makes each call one step.
use aurora_old.Base.{
  ℕ, String, ◌==◌, Option, none, some, List, [], ◌∷◌, ◌++◌, length, get_elem?, set, is_some,
  if◌then◌else◌, Result, ok, err,
}
use aurora_old.Base.Int.{ℤ}
use aurora_old.Base.Assoc.{Assoc, lookup, insert, erase}
use aurora_old.Compute.Instance.{
  Instance, Status, ComputeError, instance_not_found, instance_already_exists,
}

pub record InstanceStore : Type 0 where
  pub heap : List Instance
  pub instances : Assoc ℕ
  pub by_name : Assoc ℕ

unfoldable pub new_instance_store : InstanceStore
new_instance_store = record { heap = []; instances = []; by_name = [] }

abbrev pub at_pointer : Option ℕ → List Instance → Option Instance
at_pointer none heap = none
at_pointer (some p) heap = get_elem? heap p

abbrev pub found : Option Instance → Result ComputeError Instance
found none = err instance_not_found
found (some i) = ok i

unfoldable pub create : Instance → InstanceStore → InstanceStore × Result ComputeError (Unit {0})
create i s = if is_some (lookup i.name s.by_name) then (s, err instance_already_exists) else (
  record {
    heap = s.heap ++ (i ∷ []);
    instances = insert i.id (length s.heap) s.instances;
    by_name = insert i.name (length s.heap) s.by_name;
  },
  ok tt,
)

unfoldable pub get_by_id : String → InstanceStore → Result ComputeError Instance
get_by_id id s = found (at_pointer (lookup id s.instances) s.heap)

unfoldable pub get_by_name : String → InstanceStore → Result ComputeError Instance
get_by_name name s = found (at_pointer (lookup name s.by_name) s.heap)

-- `ListAll`, in the order of the map.
abbrev objects : List Instance → Assoc ℕ → List Instance
objects heap [] = []
objects heap ((id, p) ∷ rest) = elim (get_elem? heap p) [
  | none ↦ objects heap rest
  | some i ↦ i ∷ objects heap rest
]

unfoldable pub list_all : InstanceStore → List Instance
list_all s = objects s.heap s.instances

abbrev owned_by : String → List Instance → List Instance
owned_by user [] = []
owned_by user (i ∷ rest) = if i.user_id == user then i ∷ owned_by user rest else owned_by user rest

unfoldable pub list_by_user : String → InstanceStore → List Instance
list_by_user user s = owned_by user (list_all s)

abbrev hosted_by : String → List Instance → List Instance
hosted_by node [] = []
hosted_by node (i ∷ rest) =
    if i.node_id == node then i ∷ hosted_by node rest else hosted_by node rest

unfoldable pub list_by_node : String → InstanceStore → List Instance
list_by_node node s = hosted_by node (list_all s)

-- A write through the pointer that the identifier finds.
abbrev pub write_at :
    (Instance → Instance)
    → Option ℕ
    → InstanceStore
    → InstanceStore × Result ComputeError (Unit {0})
write_at f none s = (s, err instance_not_found)
write_at f (some p) s = elim (get_elem? s.heap p) [
  | none ↦ (s, err instance_not_found)
  | some i ↦ (record s { heap = set s.heap p (f i) }, ok tt)
]

unfoldable pub with_status : ℤ → Status → String → String → Instance → Instance
with_status now status ipv4 ipv6 i = record i {
  status = status;
  ipv4_address = if ipv4 == "" then i.ipv4_address else ipv4;
  ipv6_address = if ipv6 == "" then i.ipv6_address else ipv6;
  updated_at = now;
}

unfoldable pub update_status :
    ℤ
    → String
    → Status
    → String
    → String
    → InstanceStore
    → InstanceStore × Result ComputeError (Unit {0})
update_status now id status ipv4 ipv6 s =
    write_at (with_status now status ipv4 ipv6) (lookup id s.instances) s

unfoldable pub with_spec : ℤ → ℤ → ℤ → ℤ → Instance → Instance
with_spec now cpu memory storage i = record i {
  cpu_cores = cpu;
  memory_bytes = memory;
  storage_bytes = storage;
  updated_at = now;
}

unfoldable pub update_spec :
    ℤ → String → ℤ → ℤ → ℤ → InstanceStore → InstanceStore × Result ComputeError (Unit {0})
update_spec now id cpu memory storage s =
    write_at (with_spec now cpu memory storage) (lookup id s.instances) s

unfoldable pub with_node : ℤ → String → Instance → Instance
with_node now node i = record i { node_id = node; updated_at = now }

unfoldable pub update_node_id :
    ℤ → String → String → InstanceStore → InstanceStore × Result ComputeError (Unit {0})
update_node_id now id node s = write_at (with_node now node) (lookup id s.instances) s

abbrev delete_found :
    String → Option Instance → InstanceStore → InstanceStore × Result ComputeError (Unit {0})
delete_found id none s = (s, err instance_not_found)
delete_found id (some i) s =
    (record s { by_name = erase i.name s.by_name; instances = erase id s.instances }, ok tt)

unfoldable pub delete : String → InstanceStore → InstanceStore × Result ComputeError (Unit {0})
delete id s = delete_found id (at_pointer (lookup id s.instances) s.heap) s
