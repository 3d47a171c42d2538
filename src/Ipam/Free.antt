-- ===== src/Ipam/Free.antt =====
-- internal/app/ipam/service.go: findNextAvailableIP finds the lowest free host.
use aurora_old.Base.{
  ℕ, zero, suc, ◌+◌, ◌-◌, ◌%◌, ◌^◌, ◌≤◌, ltb, String, Bool, true, false, Option, some, Result, ok,
  err, ◌≡◌, refl, ap, ◌∙◌, inl, inr, Bool-cases, arith,
}
use native.Mathlib.Nat.{one-le-pow, pow-le-pow_right}
use aurora_old.Ipam.Search.{
  IpamError, pool_exhausted, IpNet, free_from, total_hosts, search_net, find_next_available,
}

module _ (show_ip : ℕ → String) (allocated : String → Bool) (start : ℕ) where
  -- The text of the address with this number in the network.
  abbrev pub host : ℕ → String
  host k = show_ip ((start + k) % 2 ^ 32)

  -- Of the `n` addresses from number `i` on, the result is the first free one, or all are allocated.
  abbrev pub LowestFree : ℕ → ℕ → Result IpamError String → Type 0
  LowestFree i n (ok ip) =
      (k : ℕ) × (suc k ≤ n)
      × (ip ≡ host (i + k))
      × (allocated ip ≡ false)
      × ((j : ℕ) → suc j ≤ k → allocated (host (i + j)) ≡ true)
  LowestFree i n (err e) =
      (e ≡ pool_exhausted) × ((j : ℕ) → suc j ≤ n → allocated (host (i + j)) ≡ true)

  one_more :
      (i k : ℕ)
      → allocated (host i) ≡ true
      → ((j : ℕ) → suc j ≤ k → allocated (host (suc i + j)) ≡ true)
      → (j : ℕ) → suc j ≤ suc k
      → allocated (host (i + j)) ≡ true
  one_more i k a h zero p = ap (λ n. allocated (host n)) (omega arith) ∙ a
  one_more i k a h (suc j) p = ap (λ n. allocated (host n)) (omega arith) ∙ h j (omega arith)

  LowestFree-suc :
      (i n : ℕ) (r : Result IpamError String)
      → allocated (host i) ≡ true
      → LowestFree (suc i) n r
      → LowestFree i (suc n) r
  LowestFree-suc i n (ok ip) a (k, p, e, f, h) =
      (suc k, omega arith, e ∙ ap host (omega arith), f, one_more i k a h)
  LowestFree-suc i n (err e) a (x, h) = (x, one_more i n a h)

  free_from-LowestFree : (i n : ℕ) → LowestFree i n (free_from show_ip allocated start i n)
  unfolding free_from
  free_from-LowestFree i zero = (refl, λ j p. ground arith)
  free_from-LowestFree i (suc n) = elim (Bool-cases (allocated (host i))) [
    | inl a ↦ rw (free_from, a) (LowestFree-suc i n _ a (free_from-LowestFree (suc i) n))
    | inr a ↦ rw (free_from, a) (0, omega arith, ap host (omega arith), a, λ j p. ground arith)
  ]

power_cases : (m : ℕ) → (1 ≤ 2 ^ (32 - m)) × (2 ^ (32 - m) ≤ 2 ^ 32)
power_cases m = (
  one-le-pow (32 - m) 2 (omega arith),
  pow-le-pow_right {n = 2} (omega arith) {i = 32 - m} {j = 32} (omega arith),
)

count_wrap : (x : ℕ) → 1 ≤ x → x ≤ 2 ^ 32 → (x % 2 ^ 32 + (2 ^ 32 - 1)) % 2 ^ 32 - 1 ≡ x - 2
count_wrap x h k = omega arith

host_count : (m : ℕ) → (total_hosts m + (2 ^ 32 - 1)) % 2 ^ 32 - 1 ≡ 2 ^ (32 - m) - 2
host_count m = count_wrap (2 ^ (32 - m)) (power_cases m).0 (power_cases m).1

-- In an IPv4 network the search gives the host of the lowest number, from 1 to the last but one, that
-- is not allocated, and says that the pool is exhausted only if all of these are.
pub find_next_available-LowestFree :
    (show_ip : ℕ → String) (parse_cidr : String → Option IpNet) (cidr : String)
    (allocated : String → Bool) (net : IpNet) (start : ℕ)
    → parse_cidr cidr ≡ some net
    → net.ip4 ≡ some start
    → net.mask_size ≤ 32
    → LowestFree show_ip allocated start 1
        (2 ^ (32 - net.mask_size) - 2)
        (find_next_available show_ip parse_cidr cidr allocated)
unfolding find_next_available search_net
find_next_available-LowestFree show_ip parse_cidr cidr allocated net start e f h =
    let small : ltb 32 net.mask_size ≡ false = ground arith in
    rw (find_next_available, e, search_net, f, small, host_count net.mask_size)
      (free_from-LowestFree show_ip allocated start 1 (2 ^ (32 - net.mask_size) - 2))
