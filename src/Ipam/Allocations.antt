-- ===== src/Ipam/Allocations.antt =====
-- internal/infra/memory/ipam_repo.go: the repository of allocations (MemoryIPAllocationRepo). `now`
-- and `new_id` stand for the clock and the fresh identifier.
use aurora_old.Base.{
  String, ◌==◌, Bool, true, false, not, ◌&&◌, Option, none, some, List, [], ◌∷◌, map, keep, is_some,
  if◌then◌else◌, Result, ok, err,
}
use aurora_old.Base.Int.{ℤ}
use aurora_old.Base.Assoc.{Assoc, lookup, insert, erase}
use aurora_old.Ipam.Search.{IpamError, already_allocated, allocation_not_found}

pub record IpAllocation : Type 0 where
  pub id : String
  pub pool_id : String
  pub instance_id : Option String
  pub ip_address : String
  pub mac_address : String
  pub interface_name : String
  pub is_reserved : Bool
  pub notes : String
  pub allocated_at : ℤ
  pub released_at : Option ℤ

abbrev pub Allocations : Type 0
Allocations = Assoc IpAllocation

-- `a.ReleasedAt == nil`
abbrev pub is_active : IpAllocation → Bool
is_active a = not (is_some a.released_at)

abbrev pub holds : String → IpAllocation → Bool
holds ip a = a.ip_address == ip && is_active a

unfoldable pub get_by_ip : String → Allocations → Result IpamError IpAllocation
get_by_ip ip [] = err allocation_not_found
get_by_ip ip ((k, a) ∷ m) = if holds ip a then ok a else get_by_ip ip m

-- The loop of `Create`.
unfoldable pub is_taken : String → Allocations → Bool
is_taken ip [] = false
is_taken ip ((k, a) ∷ m) = if holds ip a then true else is_taken ip m

unfoldable pub created : String → ℤ → IpAllocation → IpAllocation
created new_id now a = record a {
  id = if a.id == "" then new_id else a.id;
  allocated_at = now;
  released_at = none;
}

unfoldable pub create_allocation :
    String → ℤ → IpAllocation → Allocations → Allocations × Result IpamError IpAllocation
create_allocation new_id now a m =
    if is_taken a.ip_address m
    then (m, err already_allocated)
    else (insert (created new_id now a).id (created new_id now a) m, ok (created new_id now a))

unfoldable pub get_by_id : String → Allocations → Result IpamError IpAllocation
get_by_id id m = elim (lookup id m) [ none ↦ err allocation_not_found | some a ↦ ok a ]

unfoldable pub list_by_pool_id : String → Allocations → List IpAllocation
list_by_pool_id pool m = keep (λ a. a.pool_id == pool && is_active a) (map (λ e. e.1) m)

abbrev of_instance : String → Option String → Bool
of_instance id none = false
of_instance id (some i) = i == id

unfoldable pub list_by_instance_id : String → Allocations → List IpAllocation
list_by_instance_id id m =
    keep (λ a. of_instance id a.instance_id && is_active a) (map (λ e. e.1) m)

abbrev pub release_found :
    ℤ → String → Option IpAllocation → Allocations → Allocations × Result IpamError (Unit {0})
release_found now id none m = (m, err allocation_not_found)
release_found now id (some a) m = (insert id (record a { released_at = some now }) m, ok tt)

unfoldable pub release_allocation :
    ℤ → String → Allocations → Allocations × Result IpamError (Unit {0})
release_allocation now id m = release_found now id (lookup id m) m

unfoldable pub delete_allocation : String → Allocations → Allocations × Result IpamError (Unit {0})
delete_allocation id m = elim (lookup id m) [
  | none ↦ (m, err allocation_not_found)
  | some a ↦ (erase id m, ok tt)
]
