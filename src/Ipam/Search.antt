-- ===== src/Ipam/Search.antt =====
-- internal/app/ipam/service.go: findNextAvailableIP and calculateTotalHostIPs. `net.ParseCIDR` and
-- the text of an address are arguments; an IPv4 address is the number that its four bytes are in
-- big-endian order, and `none` stands for the nil of `To4`.
use aurora_old.Base.{
  ℕ, zero, suc, ◌+◌, ◌-◌, ◌%◌, ◌^◌, ltb, leb, String, Bool, true, false, Option, none, some,
  if◌then◌else◌, Result, ok, err,
}
use aurora_old.Base.Int.{ℤ, pos}

pub data IpamError : Type 0 where
  pool_not_found pool_already_exists pool_exhausted : IpamError
  already_allocated allocation_not_found invalid_cidr subnet_overlap network_unreachable : IpamError
  shift_panic : IpamError

-- What `ParseCIDR` finds: the network's address, and the size of its mask.
pub record IpNet : Type 0 where
  pub ip4 : Option ℕ
  pub mask_size : ℕ

-- `uint32(1 << (32 - maskSize))`, which is 0 for a mask of size 0.
abbrev pub total_hosts : ℕ → ℕ
total_hosts mask = 2 ^ (32 - mask) % 2 ^ 32

module _ (show_ip : ℕ → String) where
  -- The loop from `i` over the `n` hosts that are left; sums are of `uint32`.
  unfoldable pub free_from : (String → Bool) → ℕ → ℕ → ℕ → Result IpamError String
  free_from allocated start i zero = err pool_exhausted
  free_from allocated start i (suc n) = elim (allocated (show_ip ((start + i) % 2 ^ 32))) [
    | false ↦ ok (show_ip ((start + i) % 2 ^ 32))
    | true ↦ free_from allocated start (suc i) n
  ]

  -- A shift by a negative number panics.
  unfoldable pub search_net : (String → Bool) → IpNet → Result IpamError String
  search_net allocated net = elim net.ip4 [
    | none ↦ err pool_exhausted
    | some start ↦
        if ltb 32 net.mask_size
        then err shift_panic
        else free_from allocated start 1 ((total_hosts net.mask_size + (2 ^ 32 - 1)) % 2 ^ 32 - 1)
  ]

  unfoldable pub find_next_available :
      (String → Option IpNet) → String → (String → Bool) → Result IpamError String
  find_next_available parse_cidr cidr allocated = elim (parse_cidr cidr) [
    | none ↦ err invalid_cidr
    | some net ↦ search_net allocated net
  ]

unfoldable pub calculate_total_host_ips : IpNet → ℤ
calculate_total_host_ips net = elim net.ip4 [
  | none ↦ pos 65536
  | some _ ↦ if leb 31 net.mask_size then pos 2 else pos (2 ^ (32 - net.mask_size) - 2)
]
