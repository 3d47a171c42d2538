-- ===== src/Job/Leases.antt =====
-- What `ClaimNextPending` promises: it leases one job that was up for it and changes nothing else,
-- it comes back empty only if no job was, and two workers do not hold one job at a time.
use aurora_old.Base.{
  String, ◌==◌, eq_iff, eq_refl, true, false, none, some, List, [], ◌∷◌, if◌then◌else◌, ◌≡◌, ◌≢◌,
  ◌↔◌, refl, arith, inl, inr, Bool-cases,
}
use aurora_old.Base.Int.{ℤ, ◌+ℤ◌, ◌≤ℤ◌}
use aurora_old.Base.Assoc.{Assoc, lookup, Each, IsMap, Each-lookup}
use aurora_old.Job.Types.{Job}
use aurora_old.Job.Store.{JobStore, claimable, eligible, take_lease, claim_from, claim_next_pending}

-- One entry was up for a lease and holds it now; every other entry is as before.
pub record Leased (now : ℤ) (worker : String) (lease : ℤ) (types : List String) (m m' : Assoc Job)
    (j' : Job) : Type 0 where
  pub key : String
  pub job : Job
  pub found : lookup key m ≡ some job
  pub was_claimable : claimable now types job ≡ true
  pub taken : j' ≡ take_lease now worker lease job
  pub after : (i : String) → lookup i m' ≡ (if key == i then some j' else lookup i m)

module _ {now : ℤ} {worker : String} {lease : ℤ} {types : List String} where
  Leased-head :
      (k : String) (j : Job) (m : Assoc Job)
      → claimable now types j ≡ true
      → let j' = take_lease now worker lease j in
        Leased now worker lease types ((k, j) ∷ m) ((k, j') ∷ m) j'
  unfolding lookup
  Leased-head k j m c = record {
    key = k;
    job = j;
    found = rw eq_refl;
    was_claimable = c;
    taken = refl;
    after = λ i. ground arith;
  }

  Leased-tail :
      (k : String) (j : Job) (m m' : Assoc Job) {j' : Job}
      → lookup k m ≡ none
      → Leased now worker lease types m m' j'
      → Leased now worker lease types ((k, j) ∷ m) ((k, j) ∷ m') j'
  unfolding lookup
  Leased-tail k j m m' fresh l = record {
    key = l.key;
    job = l.job;
    found = ground (arith, l.found, eq_iff k l.key);
    was_claimable = l.was_claimable;
    taken = l.taken;
    after = λ i. ground (arith, l.found, l.after i, eq_iff k i, eq_iff l.key i);
  }

module _ (now : ℤ) (worker : String) (lease : ℤ) (types : List String) where
  pub claim_from-Leased :
      (m : Assoc Job) {j' : Job}
      → IsMap m
      → (claim_from now worker lease types m).1 ≡ some j'
      → Leased now worker lease types m (claim_from now worker lease types m).0 j'
  unfolding claim_from
  claim_from-Leased [] u h = cc
  claim_from-Leased ((k, j) ∷ m) {j'} u h = elim (Bool-cases (claimable now types j)) [
    | inl up ↦
        let e : take_lease now worker lease j ≡ j' = cc (rw up at h) in
        rw (up, ← e) (Leased-head k j m up)
    | inr down ↦ rw down (
        Leased-tail k j m (claim_from now worker lease types m).0 u.0
          (claim_from-Leased m u.1 (rw down at h)))
  ]

  pub claim_from-none :
      (m : Assoc Job)
      → (claim_from now worker lease types m).1 ≡ none
      → Each (λ k j. claimable now types j ≡ false) m
        × ((claim_from now worker lease types m).0 ≡ m)
  unfolding claim_from
  claim_from-none [] h = (tt, refl)
  claim_from-none ((k, j) ∷ m) h = elim (Bool-cases (claimable now types j)) [
    | inl up ↦ ground arith
    | inr down ↦
        let (none_up, same) = claim_from-none m (rw down at h) in ((down, none_up), rw (down, same))
  ]

  claim_from-empty :
      (m : Assoc Job)
      → Each (λ k j. claimable now types j ≡ false) m
      → (claim_from now worker lease types m).1 ≡ none
  unfolding claim_from
  claim_from-empty [] h = refl
  claim_from-empty ((k, j) ∷ m) h = rw h.0 (claim_from-empty m h.1)

  pub claim_from-absent :
      (k : String) (m : Assoc Job)
      → lookup k m ≡ none
      → lookup k (claim_from now worker lease types m).0 ≡ none
  unfolding claim_from lookup
  claim_from-absent k [] h = refl
  claim_from-absent k ((i, j) ∷ m) h = ground (arith, claim_from-absent k m)

  pub claim_from-IsMap : (m : Assoc Job) → IsMap m → IsMap (claim_from now worker lease types m).0
  unfolding claim_from
  claim_from-IsMap [] u = tt
  claim_from-IsMap ((i, j) ∷ m) u = ground (arith, claim_from-IsMap m u.1, claim_from-absent i m)

-- A claim comes back empty exactly if no job can be claimed; then the store is as it was.
claim-none :
    (now : ℤ) (worker : String) (lease : ℤ) (types : List String) (s : JobStore)
    → let (s', r) = claim_next_pending now worker lease types s in
      ((r ≡ none) ↔ Each (λ k j. claimable now types j ≡ false) s.jobs) × (r ≡ none → s' ≡ s)
unfolding claim_next_pending
claim-none now worker lease types s = (
  (
    λ h. (claim_from-none now worker lease types s.jobs h).0,
    λ h. claim_from-empty now worker lease types s.jobs h,
  ),
  λ h. rw ((claim_from-none now worker lease types s.jobs h).1),
)

leased_not_claimable :
    (now later : ℤ) (worker : String) (lease : ℤ) (types : List String) (j : Job)
    → later ≤ℤ now +ℤ lease
    → claimable later types (take_lease now worker lease j) ≡ false
unfolding claimable eligible take_lease
leased_not_claimable now later worker lease [] j h = ground arith
leased_not_claimable now later worker lease (t ∷ ts) j h = ground arith

take_lease-id :
    (now : ℤ) (worker : String) (lease : ℤ) (j : Job) → (take_lease now worker lease j).id ≡ j.id
unfolding take_lease
take_lease-id now worker lease j = refl

-- In a repository that stores each job once, under its identifier, the claim after another one, at a
-- time until which the lease of the first has not run out, does not return the same job.
pub claim_exclusive :
    (now later : ℤ) (w1 w2 : String) (lease d : ℤ) (ts us : List String) (s : JobStore)
    {j1 j2 : Job}
    → IsMap s.jobs
    → Each (λ k j. j.id ≡ k) s.jobs
    → later ≤ℤ now +ℤ lease
    → (claim_next_pending now w1 lease ts s).1 ≡ some j1
    → (claim_next_pending later w2 d us (claim_next_pending now w1 lease ts s).0).1 ≡ some j2
    → j1.id ≢ j2.id
unfolding claim_next_pending
claim_exclusive now later w1 w2 lease d ts us s {j1} {j2} u keyed t h1 h2 same =
    let m' = (claim_from now w1 lease ts s.jobs).0 in
    let a = claim_from-Leased now w1 lease ts s.jobs u h1 in
    let b = claim_from-Leased later w2 d us m' (claim_from-IsMap now w1 lease ts s.jobs u) h2 in
    ground (
      arith,
      a.found,
      a.taken,
      b.found,
      b.taken,
      b.was_claimable,
      a.after b.key,
      eq_iff a.key b.key,
      leased_not_claimable now later w1 lease us a.job t,
      take_lease-id now w1 lease a.job,
      take_lease-id later w2 d b.job,
      Each-lookup (λ k j. j.id ≡ k) a.key {v = a.job} s.jobs keyed,
      Each-lookup (λ k j. j.id ≡ k) b.key {v = b.job} s.jobs keyed,
    )
