-- ===== src/Ipam/Unique.antt =====
-- internal/infra/memory/ipam_repo.go: an address is held by one allocation at a time.
use aurora_old.Base.{
  ℕ, ◌+◌, ◌≤◌, String, eq_iff, Bool, true, false, Option, none, some, List, [], ◌∷◌, ◌≡◌, refl,
  arith,
}
use aurora_old.Base.Int.{ℤ}
use aurora_old.Base.Assoc.{lookup, insert, erase}
use aurora_old.Ipam.Allocations.{
  IpAllocation, Allocations, holds, is_taken, created, create_allocation, release_found,
  release_allocation, delete_allocation,
}

abbrev one_if : Bool → ℕ
one_if true = 1
one_if false = 0

-- How many allocations hold an address.
abbrev pub holders : String → Allocations → ℕ
holders ip [] = 0
holders ip ((k, a) ∷ m) = one_if (holds ip a) + holders ip m

holders-insert :
    (ip k : String) (a : IpAllocation) (m : Allocations)
    → holders ip (insert k a m) ≤ one_if (holds ip a) + holders ip m
unfolding insert
holders-insert ip k a [] = ground arith
holders-insert ip k a ((j, b) ∷ m) = ground (arith, holders-insert ip k a m)

holders-erase : (ip k : String) (m : Allocations) → holders ip (erase k m) ≤ holders ip m
unfolding erase
holders-erase ip k [] = ground arith
holders-erase ip k ((j, b) ∷ m) = ground (arith, holders-erase ip k m)

free_holders : (ip : String) (m : Allocations) → is_taken ip m ≡ false → holders ip m ≡ 0
unfolding is_taken
free_holders ip [] h = refl
free_holders ip ((k, a) ∷ m) h = ground (arith, free_holders ip m)

-- A call on the repository.
pub data Call : Type 0 where
  creating : String → ℤ → IpAllocation → Call
  releasing : ℤ → String → Call
  deleting : String → Call

abbrev pub call : Call → Allocations → Allocations
call (creating new_id now a) m = (create_allocation new_id now a m).0
call (releasing now id) m = (release_allocation now id m).0
call (deleting id) m = (delete_allocation id m).0

abbrev pub calls : List Call → Allocations → Allocations
calls [] m = m
calls (c ∷ cs) m = calls cs (call c m)

abbrev Once : Allocations → Type 0
Once m = (ip : String) → holders ip m ≤ 1

create-Once :
    (new_id : String) (now : ℤ) (a : IpAllocation) (m : Allocations)
    → Once m
    → Once (call (creating new_id now a) m)
unfolding create_allocation created
create-Once new_id now a m h ip = ground (
  arith,
  h ip,
  holders-insert ip (created new_id now a).id (created new_id now a) m,
  free_holders a.ip_address m,
  eq_iff a.ip_address ip,
)

-- A released allocation holds no address.
release_found-Once :
    (now : ℤ) (id : String) (o : Option IpAllocation) (m : Allocations)
    → Once m
    → Once (release_found now id o m).0
release_found-Once now id none m h ip = h ip
release_found-Once now id (some a) m h ip =
    ground (arith, h ip, holders-insert ip id (record a { released_at = some now }) m)

release-Once : (now : ℤ) (id : String) (m : Allocations) → Once m → Once (call (releasing now id) m)
unfolding release_allocation
release-Once now id m h = release_found-Once now id (lookup id m) m h

delete-Once : (id : String) (m : Allocations) → Once m → Once (call (deleting id) m)
unfolding delete_allocation
delete-Once id m h ip = ground (arith, h ip, holders-erase ip id m)

call-Once : (c : Call) (m : Allocations) → Once m → Once (call c m)
call-Once (creating new_id now a) m h = create-Once new_id now a m h
call-Once (releasing now id) m h = release-Once now id m h
call-Once (deleting id) m h = delete-Once id m h

calls-Once : (cs : List Call) (m : Allocations) → Once m → Once (calls cs m)
calls-Once [] m h = h
calls-Once (c ∷ cs) m h = calls-Once cs (call c m) (call-Once c m h)

-- Whatever calls are made on an empty repository, at most one allocation holds an address.
pub holders-calls : (cs : List Call) (ip : String) → holders ip (calls cs []) ≤ 1
holders-calls cs ip = calls-Once cs [] (λ i. omega arith) ip
