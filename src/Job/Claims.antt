-- ===== src/Job/Claims.antt =====
-- What `ClaimNextPending` gives out, in the words of the states and times of a job.
use mathlib.Core.List.{Memᴰ}
use aurora_old.Base.{
  String, ◌==◌, eq_iff, true, false, none, some, List, [], ◌∷◌, if◌then◌else◌, ◌≡◌, ◌⊎◌, ◌↔◌, refl,
  sym, arith, inl, inr, Bool-cases, Option-cases,
}
use aurora_old.Base.Int.{ℤ, ◌+ℤ◌, ◌≤ℤ◌, ◌<ℤ◌}
use aurora_old.Base.Assoc.{lookup, IsMap, Each-lookup}
use aurora_old.Job.Types.{
  Job, Status, unset, pending, running, retrying, succeeded, failed, canceled,
}
use aurora_old.Job.Store.{
  JobStore, claimable, eligible, take_lease, type_listed, claim_next_pending,
}
use aurora_old.Job.Leases.{claim_from-Leased, claim_from-none}

-- Pending; or waiting for a retry whose time, if it has one, has come; or running on a lease that
-- has run out.
abbrev pub IsUp : ℤ → Job → Type 0
IsUp now j =
    (j.status ≡ pending)
    ⊎ (((j.status ≡ retrying)
          × ((j.next_retry_at ≡ none) ⊎ ((t : ℤ) × (j.next_retry_at ≡ some t) × (t ≤ℤ now))))
        ⊎ ((j.status ≡ running) × ((t : ℤ) × (j.locked_until ≡ some t) × (t <ℤ now))))

-- Any type, if none is listed.
abbrev pub IsListed : List String → Job → Type 0
IsListed types j = (types ≡ []) ⊎ Memᴰ j.job_type types

eligible-IsUp : (now : ℤ) (j : Job) → eligible now j ≡ true → IsUp now j
unfolding eligible
eligible-IsUp now j h = go j.status refl
  where
    go : (s : Status) → j.status ≡ s → IsUp now j
    go pending e = inl e
    go retrying e = inr (
        inl (
          e,
          (elim (Option-cases j.next_retry_at) [
            | inl a ↦ inl a
            | inr (t, a) ↦ inr (t, a, ground arith)
          ]),
        ))
    go running e = inr (
        inr (
          e,
          (elim (Option-cases j.locked_until) [
            | inl a ↦ ground arith
            | inr (t, a) ↦ (t, a, ground arith)
          ]),
        ))
    go unset e = ground arith
    go succeeded e = ground arith
    go failed e = ground arith
    go canceled e = ground arith

IsUp-eligible : (now : ℤ) (j : Job) → IsUp now j → eligible now j ≡ true
unfolding eligible
IsUp-eligible now j (inl a) = ground arith
IsUp-eligible now j (inr (inl (a, inl b))) = ground arith
IsUp-eligible now j (inr (inl (a, inr (t, b, c)))) = ground arith
IsUp-eligible now j (inr (inr (a, (t, b, c)))) = ground arith

type_listed-Memᴰ : (t : String) (l : List String) → type_listed t l ≡ true → Memᴰ t l
unfolding type_listed
type_listed-Memᴰ t [] h = cc
type_listed-Memᴰ t (u ∷ l) h = elim (Bool-cases (u == t)) [
  | inl b ↦ Memᴰ.head (sym ((eq_iff u t).0 b))
  | inr b ↦ Memᴰ.tail (type_listed-Memᴰ t l (rw b at h))
]

Memᴰ-type_listed : (t : String) (l : List String) → Memᴰ t l → type_listed t l ≡ true
unfolding type_listed
Memᴰ-type_listed t [] m = elim m [ ]
Memᴰ-type_listed t (u ∷ l) (Memᴰ.head e) = rw ((eq_iff u t).1 (sym e)) refl
Memᴰ-type_listed t (u ∷ l) (Memᴰ.tail m) = rw (Memᴰ-type_listed t l m) (ground arith)

claimable_iff :
    (now : ℤ) (types : List String) (j : Job)
    → (claimable now types j ≡ true) ↔ (IsListed types j × IsUp now j)
unfolding claimable
claimable_iff now [] j = (λ h. (inl refl, eligible-IsUp now j h), λ h. IsUp-eligible now j h.1)
claimable_iff now (t ∷ ts) j = (
  λ h.
      let l : type_listed j.job_type (t ∷ ts) ≡ true = ground arith in
      let u : eligible now j ≡ true = ground arith in
      (inr (type_listed-Memᴰ j.job_type (t ∷ ts) l), eligible-IsUp now j u),
  λ h. elim h.0 [
    | inl e ↦ cc
    | inr m ↦ rw (Memᴰ-type_listed j.job_type (t ∷ ts) m, IsUp-eligible now j h.1) refl
  ],
)

-- Held by the worker for the lease from now on, and started once; the same in all else.
abbrev pub IsTaken : ℤ → String → ℤ → Job → Job → Type 0
IsTaken now worker lease j j' =
    (j' ≡ record j {
      status = running;
      locked_by_worker = worker;
      locked_until = some (now +ℤ lease);
      started_at = j'.started_at;
    })
    × (j.started_at ≡ none → j'.started_at ≡ some now)
    × ((t : ℤ) → j.started_at ≡ some t → j'.started_at ≡ some t)

take_lease-IsTaken :
    (now : ℤ) (worker : String) (lease : ℤ) (j : Job)
    → IsTaken now worker lease j (take_lease now worker lease j)
unfolding take_lease
take_lease-IsTaken now worker lease j = (refl, λ e. rw e refl, λ t e. rw e refl)

-- In a repository that stores each job once: a claim that returns a job has stored it, as held by the
-- worker for the lease from now on, in place of a job of a listed type (any, if none is listed) that
-- was pending, waited for a retry whose time had come, or ran on a lease that had run out; every
-- other job is as it was. A claim that comes back empty has left the repository as it was, and then
-- no stored job was such a job.
pub claim-Leased :
    (now : ℤ) (worker : String) (lease : ℤ) (types : List String) (s : JobStore)
    → IsMap s.jobs
    → let (s', r) = claim_next_pending now worker lease types s in
      ((j' : Job)
        → r ≡ some j'
        → (k : String) × (j : Job) × (lookup k s.jobs ≡ some j)
          × IsListed types j
          × IsUp now j
          × IsTaken now worker lease j j'
          × ((i : String) → lookup i s'.jobs ≡ (if k == i then some j' else lookup i s.jobs)))
      × (r ≡ none
          → (s' ≡ s)
            × ((k : String) (j : Job)
                → lookup k s.jobs ≡ some j
                → ¬ (IsListed types j × IsUp now j)))
unfolding claim_next_pending
claim-Leased now worker lease types s u = (
  λ j' h.
      let l = claim_from-Leased now worker lease types s.jobs u h in
      let (a, b) = (claimable_iff now types l.job).0 l.was_claimable in
      (
        l.key,
        l.job,
        l.found,
        a,
        b,
        rw l.taken (take_lease-IsTaken now worker lease l.job),
        l.after,
      ),
  λ h.
      let (none_up, same) = claim_from-none now worker lease types s.jobs h in
      (
        rw same,
        λ k j e m.
            let x = (claimable_iff now types j).1 m in
            let y = Each-lookup (λ k j. claimable now types j ≡ false) k {v = j} s.jobs none_up e in
            cc,
      ),
)
