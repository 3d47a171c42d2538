-- ===== src/Job/Invariant.antt =====
-- The invariant of the job repository, and that each of its methods keeps it.
use aurora_old.Base.{
  String, eq_iff, true, Option, none, some, List, [], ◌∷◌, if◌then◌else◌, ◌≡◌, ◌≢◌, refl, arith,
  is_some, Result, ok, err,
}
use aurora_old.Base.Int.{ℤ, pos, ◌+ℤ◌, int64, ◌≤ℤ◌}
use aurora_old.Base.Assoc.{
  Assoc, lookup, insert, Each, IsMap, Each-lookup, Each-insert, insert-IsMap,
}
use aurora_old.Job.Types.{JobError, Job, running, retrying, unset, is_terminal}
use aurora_old.Job.Store.{
  JobStore, with_defaults, create, take_lease, claim_from, claim_next_pending, renew_lease,
  update_progress, succeed, mark_succeeded, fail, mark_failed, cancel, mark_canceled, amend,
  amend_found, settle, renew, set_progress, release, abandoned, reclaim_from, reclaim_abandoned,
}
use aurora_old.Job.Leases.{claim_from-IsMap}

-- A job is stored under its own identifier; it has a state; exactly the running jobs hold a lock,
-- which runs out some time; a retry has a time and stays within the budget.
pub record IsSound (k : String) (j : Job) : Type 0 where
  pub keyed : j.id ≡ k
  pub has_state : j.status ≢ unset
  pub running_locked : j.status ≡ running → is_some j.locked_until ≡ true
  pub idle_unlocked : j.status ≢ running → (j.locked_by_worker ≡ "") × (j.locked_until ≡ none)
  pub retry_timed : j.status ≡ retrying → is_some j.next_retry_at ≡ true
  pub retry_budget : j.status ≡ retrying → j.retry_count ≤ℤ j.max_retries

pub record Inv (s : JobStore) : Type 0 where
  pub is_map : IsMap s.jobs
  pub sound : Each IsSound s.jobs

insert-Inv :
    (k : String) (j : Job) (s : JobStore)
    → Inv s
    → IsSound k j
    → Inv (record s { jobs = insert k j s.jobs })
insert-Inv k j s v g = record {
  is_map = insert-IsMap k j s.jobs v.is_map;
  sound = Each-insert IsSound k j s.jobs v.sound g;
}

-- A change in place keeps the invariant if it keeps the job sound.
abbrev Keeps : String → (Job → Result JobError Job) → Type 0
Keeps id f = (j j' : Job) → IsSound id j → f j ≡ ok j' → IsSound id j'

settle-Inv :
    (id : String) (s : JobStore) (r : Result JobError Job)
    → Inv s
    → ((j : Job) → r ≡ ok j → IsSound id j)
    → Inv (settle id s r).0
settle-Inv id s (err e) v h = v
settle-Inv id s (ok j) v h = insert-Inv id j s v (h j refl)

amend-Inv :
    (id : String) (s : JobStore) (f : Job → Result JobError Job)
    → Inv s
    → Keeps id f
    → Inv (amend id s f).0
unfolding amend
amend-Inv id s f v keeps = go (lookup id s.jobs) (λ j e. Each-lookup IsSound id s.jobs v.sound e)
  where
    go : (o : Option Job) → ((j : Job) → o ≡ some j → IsSound id j) → Inv (amend_found id s f o).0
    go none h = v
    go (some j) h = settle-Inv id s (f j) v (λ j' e. keeps j j' (h j refl) e)

renew-Keeps :
    (now : ℤ) (id worker : String) (lease : ℤ) → worker ≢ "" → Keeps id (renew now worker lease)
unfolding renew
renew-Keeps now id worker lease w j j' g e = ground (arith, eq_iff j.locked_by_worker worker)

set_progress-Keeps : (id : String) (p : ℤ) → Keeps id (set_progress p)
unfolding set_progress
set_progress-Keeps id p j j' g e = ground arith

succeed-Keeps : (now : ℤ) (id result : String) → Keeps id (succeed now result)
unfolding succeed
succeed-Keeps now id result j j' g e = ground arith

fail-Keeps : (now : ℤ) (id reason : String) (d : Option ℤ) → Keeps id (fail now reason d)
unfolding fail
fail-Keeps now id reason none j j' g e = ground arith
fail-Keeps now id reason (some d) j j' g e = ground arith

cancel-Keeps : (now : ℤ) (id reason : String) → Keeps id (cancel now reason)
unfolding cancel is_terminal
cancel-Keeps now id reason j j' g e = ground arith

pub mark-Inv :
    (id : String) (s : JobStore)
    → Inv s
    → ((now : ℤ) (w : String) (d : ℤ) → w ≢ "" → Inv (renew_lease now id w d s).0)
      × ((p : ℤ) → Inv (update_progress id p s).0)
      × ((now : ℤ) (r : String) → Inv (mark_succeeded now id r s).0)
      × ((now : ℤ) (r : String) (d : Option ℤ) → Inv (mark_failed now id r d s).0)
      × ((now : ℤ) (r : String) → Inv (mark_canceled now id r s).0)
unfolding renew_lease update_progress mark_succeeded mark_failed mark_canceled
mark-Inv id s v = (
  λ now w d h. amend-Inv id s (renew now w d) v (renew-Keeps now id w d h),
  λ p. amend-Inv id s (set_progress p) v (set_progress-Keeps id p),
  λ now r. amend-Inv id s (succeed now r) v (succeed-Keeps now id r),
  λ now r d. amend-Inv id s (fail now r d) v (fail-Keeps now id r d),
  λ now r. amend-Inv id s (cancel now r) v (cancel-Keeps now id r),
)

-- A job that a caller may submit: not running, not retrying, and held by nobody.
pub record IsFresh (j : Job) : Type 0 where
  pub not_running : j.status ≢ running
  pub not_retrying : j.status ≢ retrying
  pub no_worker : j.locked_by_worker ≡ ""
  pub no_lock : j.locked_until ≡ none

pub with_defaults-IsSound :
    (new_id : String) (now : ℤ) (j : Job)
    → IsFresh j
    → IsSound (with_defaults new_id now j).id (with_defaults new_id now j)
unfolding with_defaults
with_defaults-IsSound new_id now j f = ground arith

pub create-Inv :
    (new_id : String) (now : ℤ) (j : Job) (s : JobStore)
    → Inv s
    → IsFresh j
    → Inv (create new_id now j s).0
unfolding create
create-Inv new_id now j s v f =
    let j' = with_defaults new_id now j in
    insert-Inv j'.id j' s v (with_defaults-IsSound new_id now j f)

claim_from-IsSound :
    (now : ℤ) (w : String) (d : ℤ) (ts : List String) (m : Assoc Job)
    → Each IsSound m
    → Each IsSound (claim_from now w d ts m).0
unfolding claim_from take_lease
claim_from-IsSound now w d ts [] h = tt
claim_from-IsSound now w d ts ((k, j) ∷ m) h = ground (arith, claim_from-IsSound now w d ts m h.1)

pub claim-Inv :
    (now : ℤ) (w : String) (d : ℤ) (ts : List String) (s : JobStore)
    → Inv s
    → Inv (claim_next_pending now w d ts s).0
unfolding claim_next_pending
claim-Inv now w d ts s v = record {
  is_map = claim_from-IsMap now w d ts s.jobs v.is_map;
  sound = claim_from-IsSound now w d ts s.jobs v.sound;
}

module _ (cutoff : ℤ) where
  reclaim_from-absent :
      (k : String) (m : Assoc Job) (n : ℤ)
      → lookup k m ≡ none
      → lookup k (reclaim_from cutoff m n).0 ≡ none
  unfolding reclaim_from lookup
  reclaim_from-absent k [] n h = refl
  reclaim_from-absent k ((i, j) ∷ m) n h =
      ground (arith, reclaim_from-absent k m (if abandoned cutoff j then int64 (n +ℤ pos 1) else n))

  reclaim_from-IsMap : (m : Assoc Job) (n : ℤ) → IsMap m → IsMap (reclaim_from cutoff m n).0
  unfolding reclaim_from
  reclaim_from-IsMap [] n u = tt
  reclaim_from-IsMap ((i, j) ∷ m) n u =
      let n' = if abandoned cutoff j then int64 (n +ℤ pos 1) else n in
      (reclaim_from-absent i m n' u.0, reclaim_from-IsMap m n' u.1)

  reclaim_from-IsSound :
      (m : Assoc Job) (n : ℤ) → Each IsSound m → Each IsSound (reclaim_from cutoff m n).0
  unfolding reclaim_from release
  reclaim_from-IsSound [] n h = tt
  reclaim_from-IsSound ((i, j) ∷ m) n h =
      ground
        (arith, reclaim_from-IsSound m (if abandoned cutoff j then int64 (n +ℤ pos 1) else n) h.1)

pub reclaim-Inv : (cutoff : ℤ) (s : JobStore) → Inv s → Inv (reclaim_abandoned cutoff s).0
unfolding reclaim_abandoned
reclaim-Inv cutoff s v = record {
  is_map = reclaim_from-IsMap cutoff s.jobs (pos 0) v.is_map;
  sound = reclaim_from-IsSound cutoff s.jobs (pos 0) v.sound;
}
