-- ===== src/Ipam/Tests.antt =====
-- A network of four addresses, and two tenants after one address.
use aurora_old.Base.{
  ℕ, zero, suc, ◌+◌, ◌%◌, ◌^◌, String, ◌==◌, eqb, ◌≤◌, Bool, true, false, Option, none, some, List,
  [], ◌∷◌, if◌then◌else◌, ok, ◌≡◌, refl, arith,
}
use aurora_old.Base.Int.{pos}
use aurora_old.Ipam.Search.{IpNet, free_from, search_net, find_next_available}
use aurora_old.Ipam.Free.{LowestFree, find_next_available-LowestFree}
use aurora_old.Ipam.Allocations.{
  IpAllocation, list_by_pool_id, create_allocation, created, is_taken,
}
use aurora_old.Base.Assoc.{insert, lookup}
use aurora_old.Identity.Subject.{Subject, has_name}
use aurora_old.Identity.Authorizer.{authorize}
use aurora_old.Ipam.Service.{
  IpPool, Ipam, Request, allocate_ip, pool_by_id, allocated_in, wanted_allocation,
}
use aurora_old.Ipam.Fresh.{Fresh, allocate_ip-Fresh}
use aurora_old.Ipam.Blocked.{Attempt, attempt, attempts, allocate_ip-blocked}
use aurora_old.Ipam.Unique.{Call, creating, releasing, deleting, calls, holders, holders-calls}

abbrev first : ℕ
first = 3_232_235_776

-- The texts of the addresses used here.
abbrev shown : ℕ → String
shown n =
    if eqb n 3_232_235_777
    then "192.168.1.1"
    else if eqb n 3_232_235_778
    then "192.168.1.2"
    else "192.168.1.3"

abbrev small_net : String → Option IpNet
small_net cidr =
    if cidr == "192.168.1.0/30" then some (record { ip4 = some first; mask_size = 30 }) else none

abbrev gateway_only : String → Bool
gateway_only ip = ip == "192.168.1.1"

second_host : find_next_available shown small_net "192.168.1.0/30" gateway_only ≡ ok "192.168.1.2"
unfolding find_next_available search_net free_from
second_host = refl

find_next_available-LowestFree_example :
    LowestFree shown gateway_only first 1 2
      (find_next_available shown small_net "192.168.1.0/30" gateway_only)
find_next_available-LowestFree_example =
    find_next_available-LowestFree shown small_net "192.168.1.0/30" gateway_only
      (record { ip4 = some first; mask_size = 30 }) first refl refl (omega arith)

abbrev wanted : String → IpAllocation
wanted instance_id = record {
  id = "";
  pool_id = "p1";
  instance_id = some instance_id;
  ip_address = "192.168.1.2";
  mac_address = "";
  interface_name = "eth0";
  is_reserved = false;
  notes = "";
  allocated_at = pos 0;
  released_at = none;
}

abbrev history : List Call
history =
    creating "a1" (pos 1) (wanted "i1")
    ∷ creating "a2" (pos 2) (wanted "i2")
    ∷ releasing (pos 3) "a1"
    ∷ creating "a3" (pos 4) (wanted "i2")
    ∷ deleting "a1"
    ∷ []

holders-calls_example : holders "192.168.1.2" (calls history []) ≤ 1
holders-calls_example = holders-calls history "192.168.1.2"

abbrev office : Ipam
office = record {
  pools = ("p1", record { id = "p1"; cidr = "192.168.1.0/30"; gateway = "192.168.1.1" }) ∷ [];
  allocations = [];
  audit_logs = [];
}

abbrev admin : Subject
admin = record {
  type_name = "user";
  id = "u1";
  user_id = "u1";
  username = "root";
  email = "";
  roles = "superadmin" ∷ [];
  permissions = [];
  scopes = [];
}

abbrev request : Request
request = record {
  pool_id = "p1";
  instance_id = some "i1";
  interface_name = "";
  is_reserved = false;
  notes = "";
}

abbrev given : IpAllocation
given = record (wanted "i1") { id = "a1"; allocated_at = pos 5 }

allocate_ip-Fresh_example :
    (authorize (some admin) "ipam:manage" none ≡ none)
    × Fresh office
        (allocate_ip authorize shown small_net (some admin) request "a1" (pos 5) office).0
        given
unfolding allocate_ip find_next_available search_net free_from pool_by_id allocated_in
    list_by_pool_id wanted_allocation create_allocation created is_taken insert lookup authorize
    has_name
allocate_ip-Fresh_example =
    allocate_ip-Fresh authorize shown small_net (some admin) request "a1" (pos 5) office given refl

abbrev wide : IpPool
wide = record { id = "p1"; cidr = "192.168.1.0/29"; gateway = "192.168.1.1" }

abbrev wide_net : String → Option IpNet
wide_net cidr = some (record { ip4 = some first; mask_size = 29 })

-- The second host is held through another pool; the higher ones are free.
abbrev shared : Ipam
shared = record {
  pools = ("p1", wide) ∷ [];
  allocations = ("a0", record (wanted "i0") { id = "a0"; pool_id = "p2" }) ∷ [];
  audit_logs = [];
}

abbrev try : Attempt
try = record { caller = some admin; request = request; new_id = "a1"; now = pos 5 }

gateway_below :
    (j : ℕ)
    → suc j ≤ 1
    → allocated_in wide shared.allocations (shown ((first + (1 + j)) % 2 ^ 32)) ≡ true
unfolding allocated_in list_by_pool_id
gateway_below zero h = refl
gateway_below (suc j) h = ground arith

allocate_ip-blocked_example :
    (attempts authorize shown wide_net (try ∷ try ∷ []) shared ≡ shared)
    × (attempt authorize shown wide_net try
          (attempts authorize shown wide_net (try ∷ try ∷ []) shared)
        ≡ false)
unfolding allocated_in list_by_pool_id is_taken pool_by_id lookup
allocate_ip-blocked_example =
    allocate_ip-blocked authorize shown wide_net shared wide
      (record { ip4 = some first; mask_size = 29 }) first 1 (try ∷ try ∷ []) try refl refl
      (omega arith) (omega arith) gateway_below refl refl (refl, (refl, (refl, tt)))
