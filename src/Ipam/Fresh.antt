-- ===== src/Ipam/Fresh.antt =====
-- internal/app/ipam/service.go: what AllocateIP gives out.
use aurora_old.Base.{ℕ, String, true, false, Option, none, some, Result, ok, err, ◌≡◌, refl, arith}
use aurora_old.Base.Int.{ℤ}
use aurora_old.Base.Assoc.{lookup, lookup-insert_self}
use aurora_old.Identity.Subject.{Subject, IdentityError}
use aurora_old.Job.World.{Authorizer}
use aurora_old.Ipam.Search.{IpNet, IpamError, already_allocated, find_next_available}
use aurora_old.Ipam.Allocations.{IpAllocation, Allocations, is_taken, created, create_allocation}
use aurora_old.Ipam.Service.{
  IpPool, Ipam, Request, failed, allocated_in, wanted_allocation, after_create, allocate_found,
  allocate_in, allocate_allowed, allocate_ip, pool_by_id,
}

-- A new allocation, with its address free before.
abbrev pub Fresh : Ipam → Ipam → IpAllocation → Type 0
Fresh w w' a = (is_taken a.ip_address w.allocations ≡ false) × (lookup a.id w'.allocations ≡ some a)

create-Fresh :
    (new_id : String) (now : ℤ) (a b : IpAllocation) (m : Allocations)
    → (create_allocation new_id now a m).1 ≡ ok b
    → (is_taken b.ip_address m ≡ false)
      × (lookup b.id (create_allocation new_id now a m).0 ≡ some b)
unfolding create_allocation created
create-Fresh new_id now a b m h =
    ground (arith, lookup-insert_self (created new_id now a).id (created new_id now a) m)

after_create-Fresh :
    (sub : Option Subject) (now : ℤ) (w : Ipam) (r : Allocations × Result IpamError IpAllocation)
    (b : IpAllocation)
    → ((c : IpAllocation)
        → r.1 ≡ ok c
        → (is_taken c.ip_address w.allocations ≡ false) × (lookup c.id r.0 ≡ some c))
    → (after_create sub now w r).1 ≡ ok b
    → Fresh w (after_create sub now w r).0 b
after_create-Fresh none now w (m, err e) b h k = ground arith
after_create-Fresh (some s) now w (m, err e) b h k = ground arith
after_create-Fresh none now w (m, ok a) b h k = ground arith
after_create-Fresh (some s) now w (m, ok a) b h k = ground (arith, h a refl)

module _ (ask : Authorizer) (show_ip : ℕ → String) (parse_cidr : String → Option IpNet)
    (sub : Option Subject) (q : Request) (new_id : String) (now : ℤ) (w : Ipam)
    (b : IpAllocation) where
  found-Fresh :
      (r : Result IpamError String)
      → (allocate_found ask show_ip parse_cidr sub q new_id now w r).1 ≡ ok b
      → Fresh w (allocate_found ask show_ip parse_cidr sub q new_id now w r).0 b
  found-Fresh (err e) h = ground arith
  found-Fresh (ok ip) h =
      let a = wanted_allocation now q ip in
      after_create-Fresh sub now w (create_allocation new_id now a w.allocations) b
        (λ c. create-Fresh new_id now a c w.allocations) h

  pool-Fresh :
      (p : Result IpamError IpPool)
      → (allocate_in ask show_ip parse_cidr sub q new_id now w p).1 ≡ ok b
      → Fresh w (allocate_in ask show_ip parse_cidr sub q new_id now w p).0 b
  pool-Fresh (err e) h = ground arith
  pool-Fresh (ok pool) h =
      found-Fresh
        (find_next_available show_ip parse_cidr pool.cidr (allocated_in pool w.allocations)) h

  allowed-Fresh :
      (e : Option IdentityError)
      → (allocate_allowed ask show_ip parse_cidr sub q new_id now w e).1 ≡ ok b
      → (e ≡ none) × Fresh w (allocate_allowed ask show_ip parse_cidr sub q new_id now w e).0 b
  allowed-Fresh (some e) h = ground arith
  allowed-Fresh none h = (refl, pool-Fresh (pool_by_id q.pool_id w.pools) h)

-- An address is given out only if the authorizer lets the caller manage addresses and no active
-- allocation held it, and the allocation is then stored.
pub allocate_ip-Fresh :
    (ask : Authorizer) (show_ip : ℕ → String) (parse_cidr : String → Option IpNet)
    (sub : Option Subject) (q : Request) (new_id : String) (now : ℤ) (w : Ipam) (a : IpAllocation)
    → (allocate_ip ask show_ip parse_cidr sub q new_id now w).1 ≡ ok a
    → (ask sub "ipam:manage" none ≡ none)
      × Fresh w (allocate_ip ask show_ip parse_cidr sub q new_id now w).0 a
unfolding allocate_ip
allocate_ip-Fresh ask show_ip parse_cidr sub q new_id now w a h =
    allowed-Fresh ask show_ip parse_cidr sub q new_id now w a (ask sub "ipam:manage" none) h

-- Where the first address that the search finds is held through another pool, the call is refused
-- and nothing changes, so that the next call meets the same address.
pub allocate_ip-taken :
    (ask : Authorizer) (show_ip : ℕ → String) (parse_cidr : String → Option IpNet)
    (sub : Option Subject) (q : Request) (new_id : String) (now : ℤ) (w : Ipam) (pool : IpPool)
    (ip : String)
    → ask sub "ipam:manage" none ≡ none
    → pool_by_id q.pool_id w.pools ≡ ok pool
    → find_next_available show_ip parse_cidr pool.cidr (allocated_in pool w.allocations) ≡ ok ip
    → is_taken ip w.allocations ≡ true
    → allocate_ip ask show_ip parse_cidr sub q new_id now w ≡ (w, err (failed already_allocated))
unfolding allocate_ip create_allocation wanted_allocation
allocate_ip-taken ask show_ip parse_cidr sub q new_id now w pool ip a p f t =
    rw (allocate_ip, a, p, f, t) refl
