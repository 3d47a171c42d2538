-- ===== src/Ipam/Blocked.antt =====
-- internal/app/ipam/service.go over internal/infra/memory/ipam_repo.go: a pool whose next address is held
-- through another pool.
use aurora_old.Base.{
  ℕ, suc, ◌+◌, ◌-◌, ◌^◌, ◌≤◌, ◌<◌, String, true, false, Option, none, some, Option-cases, List, [],
  ◌∷◌, Bool, All, Result, ok, err, is_ok, ◌≡◌, ◌⊎◌, ◌∙◌, refl, ap, inl, inr, arith,
}
use aurora_old.Base.Int.{ℤ}
use aurora_old.Identity.Subject.{Subject}
use aurora_old.Job.World.{Authorizer}
use aurora_old.Ipam.Search.{IpamError, IpNet, find_next_available}
use aurora_old.Ipam.Allocations.{is_taken}
use aurora_old.Ipam.Service.{IpPool, Ipam, Request, allocated_in, allocate_ip, pool_by_id}
use aurora_old.Ipam.Free.{host, LowestFree, find_next_available-LowestFree}
use aurora_old.Ipam.Fresh.{allocate_ip-taken}

order : (a b : ℕ) → (a < b) ⊎ (b < a) ⊎ (a ≡ b)
order a b = ground arith

module _ (show_ip : ℕ → String) (allocated : String → Bool) (start n k : ℕ)
    (r : Result IpamError String) where
  -- The lowest free host is the one that all lower ones are taken before.
  LowestFree-unique :
      suc k ≤ n
      → ((j : ℕ) → suc j ≤ k → allocated (host show_ip allocated start (1 + j)) ≡ true)
      → allocated (host show_ip allocated start (1 + k)) ≡ false
      → LowestFree show_ip allocated start 1 n r
      → r ≡ ok (host show_ip allocated start (1 + k))
  LowestFree-unique p below free l = go r l refl
    where
      go :
          (x : Result IpamError String)
          → LowestFree show_ip allocated start 1 n x
          → r ≡ x
          → r ≡ ok (host show_ip allocated start (1 + k))
      go (err e) (f, h) s = let c = h k p in cc
      go (ok ip) (i, q, e, f, h) s = elim (order i k) [
        | inl a ↦ let c = below i a in cc
        | inr (inl a) ↦ let c = h k a in cc
        | inr (inr a) ↦ s ∙ ap ok (e ∙ ap (λ m. host show_ip allocated start (1 + m)) a)
      ]

-- A call of AllocateIP, with its fresh identifier and its clock.
pub record Attempt : Type 0 where
  pub caller : Option Subject
  pub request : Request
  pub new_id : String
  pub now : ℤ

module _ (ask : Authorizer) (show_ip : ℕ → String) (parse_cidr : String → Option IpNet) where
  abbrev pub attempt : Attempt → Ipam → Bool
  attempt a w = is_ok (allocate_ip ask show_ip parse_cidr a.caller a.request a.new_id a.now w).1

  abbrev pub attempts : List Attempt → Ipam → Ipam
  attempts [] w = w
  attempts (a ∷ l) w =
      attempts l (allocate_ip ask show_ip parse_cidr a.caller a.request a.new_id a.now w).0

  module _ (w : Ipam) (pool : IpPool) (ip : String) where
    refused_attempt :
        (a : Attempt)
        → pool_by_id a.request.pool_id w.pools ≡ ok pool
        → find_next_available show_ip parse_cidr pool.cidr (allocated_in pool w.allocations) ≡ ok ip
        → is_taken ip w.allocations ≡ true
        → ((allocate_ip ask show_ip parse_cidr a.caller a.request a.new_id a.now w).0 ≡ w)
          × (attempt a w ≡ false)
    unfolding allocate_ip
    refused_attempt a p f t = elim (Option-cases (ask a.caller "ipam:manage" none)) [
      | inl e ↦
          let x =
            allocate_ip-taken ask show_ip parse_cidr a.caller a.request a.new_id a.now w pool ip e p
              f t in
          (ap (λ y. y.0) x, ap (λ y. is_ok y.1) x)
      | inr (x, e) ↦ rw e (refl, refl)
    ]

    refused_attempts :
        (l : List Attempt)
        → All (λ a. pool_by_id a.request.pool_id w.pools ≡ ok pool) l
        → find_next_available show_ip parse_cidr pool.cidr (allocated_in pool w.allocations) ≡ ok ip
        → is_taken ip w.allocations ≡ true
        → attempts l w ≡ w
    refused_attempts [] h f t = refl
    refused_attempts (a ∷ l) h f t =
        ap (attempts l) (refused_attempt a h.0 f t).0 ∙ refused_attempts l h.1 f t

-- In a pool with an IPv4 network, let one of its hosts be held by an active allocation of another pool,
-- and each lower one be allocated in the pool or its gateway. Then any number of calls for an address of this pool,
-- by whichever callers, leave everything as it is, and the call after them is refused too, however
-- many higher hosts are free.
pub allocate_ip-blocked :
    (ask : Authorizer) (show_ip : ℕ → String) (parse_cidr : String → Option IpNet) (w : Ipam)
    (pool : IpPool) (net : IpNet) (start k : ℕ) (l : List Attempt) (a : Attempt)
    → parse_cidr pool.cidr ≡ some net
    → net.ip4 ≡ some start
    → net.mask_size ≤ 32
    → suc k ≤ 2 ^ (32 - net.mask_size) - 2
    → let allocated = allocated_in pool w.allocations in
      let nth = host show_ip allocated start in
      ((j : ℕ) → suc j ≤ k → allocated (nth (1 + j)) ≡ true)
      → allocated (nth (1 + k)) ≡ false
      → is_taken (nth (1 + k)) w.allocations ≡ true
      → All (λ b. pool_by_id b.request.pool_id w.pools ≡ ok pool) (a ∷ l)
      → (attempts ask show_ip parse_cidr l w ≡ w)
        × (attempt ask show_ip parse_cidr a (attempts ask show_ip parse_cidr l w) ≡ false)
allocate_ip-blocked ask show_ip parse_cidr w pool net start k l a c i m n below free taken pools =
    let allocated = allocated_in pool w.allocations in
    let ip = host show_ip allocated start (1 + k) in
    let f =
      LowestFree-unique show_ip allocated start (2 ^ (32 - net.mask_size) - 2) k
        (find_next_available show_ip parse_cidr pool.cidr allocated) n below free
        (find_next_available-LowestFree show_ip parse_cidr pool.cidr allocated net start c i m) in
    let same = refused_attempts ask show_ip parse_cidr w pool ip l pools.1 f taken in
    (
      same,
      ap (attempt ask show_ip parse_cidr a) same
          ∙ (refused_attempt ask show_ip parse_cidr w pool ip a pools.0 f taken).1,
    )
