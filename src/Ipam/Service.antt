-- ===== src/Ipam/Service.antt =====
-- internal/app/ipam/service.go: AllocateIP and ReleaseIP over the in-memory repositories. The
-- authorizer, `net.ParseCIDR` and the text of an address are arguments, as are the clock and the
-- fresh identifier of one call. A nil subject that the authorizer lets pass is dereferenced after the
-- change.
use aurora_old.Base.{
  ℕ, String, ◌==◌, Bool, true, false, ◌||◌, Option, none, some, List, [], ◌∷◌, if◌then◌else◌,
  Result, ok, err,
}
use aurora_old.Base.Int.{ℤ}
use aurora_old.Base.Assoc.{Assoc, lookup}
use aurora_old.Identity.Subject.{Subject, IdentityError}
use aurora_old.Job.World.{Authorizer, AuditLog}
use aurora_old.Ipam.Search.{IpamError, pool_not_found, IpNet, find_next_available}
use aurora_old.Ipam.Allocations.{
  IpAllocation, Allocations, create_allocation, get_by_id, list_by_pool_id, release_allocation,
}

-- The fields of a pool that an allocation reads.
pub record IpPool : Type 0 where
  pub id : String
  pub cidr : String
  pub gateway : String

pub record Ipam : Type 0 where
  pub pools : Assoc IpPool
  pub allocations : Allocations
  pub audit_logs : List AuditLog

pub data ServiceError : Type 0 where
  refused : IdentityError → ServiceError
  failed : IpamError → ServiceError
  nil_panic : ServiceError

pub record Request : Type 0 where
  pub pool_id : String
  pub instance_id : Option String
  pub interface_name : String
  pub is_reserved : Bool
  pub notes : String

unfoldable pub pool_by_id : String → Assoc IpPool → Result IpamError IpPool
pool_by_id id m = elim (lookup id m) [ none ↦ err pool_not_found | some p ↦ ok p ]

abbrev pub listed : String → List IpAllocation → Bool
listed ip [] = false
listed ip (a ∷ more) = if a.ip_address == ip then true else listed ip more

-- `allocatedMap`, with the gateway.
unfoldable pub allocated_in : IpPool → Allocations → String → Bool
allocated_in pool m ip = pool.gateway == ip || listed ip (list_by_pool_id pool.id m)

unfoldable pub wanted_allocation : ℤ → Request → String → IpAllocation
wanted_allocation now q ip = record {
  id = "";
  pool_id = q.pool_id;
  instance_id = q.instance_id;
  ip_address = ip;
  mac_address = "";
  interface_name = if q.interface_name == "" then "eth0" else q.interface_name;
  is_reserved = q.is_reserved;
  notes = q.notes;
  allocated_at = now;
  released_at = none;
}

-- The audit record after a change.
abbrev pub recorded :
    Option Subject → String → ℤ → IpAllocation → Ipam → Ipam × Result ServiceError IpAllocation
recorded none action now a w = (w, err nil_panic)
recorded (some s) action now a w = (
  record w {
    audit_logs =
        record {
          actor_id = s.user_id;
          action = action;
          resource_type = "ip_allocation";
          resource_id = a.id;
          details = [];
          created_at = now;
        }
        ∷ w.audit_logs;
  },
  ok a,
)

abbrev pub after_create :
    Option Subject
    → ℤ
    → Ipam
    → Allocations × Result IpamError IpAllocation
    → Ipam × Result ServiceError IpAllocation
after_create sub now w (m, err e) = (record w { allocations = m }, err (failed e))
after_create sub now w (m, ok a) =
    recorded sub "ipam:ip:allocate" now a (record w { allocations = m })

module _ (ask : Authorizer) (show_ip : ℕ → String) (parse_cidr : String → Option IpNet) where
  abbrev pub allocate_found :
      Option Subject
      → Request
      → String
      → ℤ
      → Ipam
      → Result IpamError String
      → Ipam × Result ServiceError IpAllocation
  allocate_found sub q new_id now w (err e) = (w, err (failed e))
  allocate_found sub q new_id now w (ok ip) =
      after_create sub now w
        (create_allocation new_id now (wanted_allocation now q ip) w.allocations)

  abbrev pub allocate_in :
      Option Subject
      → Request
      → String
      → ℤ
      → Ipam
      → Result IpamError IpPool
      → Ipam × Result ServiceError IpAllocation
  allocate_in sub q new_id now w (err e) = (w, err (failed e))
  allocate_in sub q new_id now w (ok pool) =
      allocate_found sub q new_id now w
        (find_next_available show_ip parse_cidr pool.cidr (allocated_in pool w.allocations))

  abbrev pub allocate_allowed :
      Option Subject
      → Request
      → String
      → ℤ
      → Ipam
      → Option IdentityError
      → Ipam × Result ServiceError IpAllocation
  allocate_allowed sub q new_id now w (some e) = (w, err (refused e))
  allocate_allowed sub q new_id now w none =
      allocate_in sub q new_id now w (pool_by_id q.pool_id w.pools)

  unfoldable pub allocate_ip :
      Option Subject → Request → String → ℤ → Ipam → Ipam × Result ServiceError IpAllocation
  allocate_ip sub q new_id now w = allocate_allowed sub q new_id now w (ask sub "ipam:manage" none)

  abbrev release_loaded :
      Option Subject
      → String
      → ℤ
      → Ipam
      → Result IpamError IpAllocation
      → Ipam × Result ServiceError IpAllocation
  release_loaded sub id now w (err e) = (w, err (failed e))
  release_loaded sub id now w (ok a) =
      let (m, r) = release_allocation now id w.allocations in
      elim r [
        | err e ↦ (record w { allocations = m }, err (failed e))
        | ok _ ↦ recorded sub "ipam:ip:release" now a (record w { allocations = m })
      ]

  abbrev release_allowed :
      Option Subject
      → String
      → ℤ
      → Ipam
      → Option IdentityError
      → Ipam × Result ServiceError IpAllocation
  release_allowed sub id now w (some e) = (w, err (refused e))
  release_allowed sub id now w none = release_loaded sub id now w (get_by_id id w.allocations)

  -- The allocation of the result is that of the audit record; the method itself returns nil.
  unfoldable pub release_ip :
      Option Subject → String → ℤ → Ipam → Ipam × Result ServiceError IpAllocation
  release_ip sub id now w = release_allowed sub id now w (ask sub "ipam:manage" none)
