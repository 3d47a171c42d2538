-- ===== src/Job/Marks.antt =====
-- What a change in place does to every job of the store, and the life of one job: its failures,
-- its cancellation and its retry.
use aurora_old.Base.{
  ℕ, suc, ◌+◌, ◌^◌, ◌-◌, ◌≤◌, String, ◌==◌, eq_refl, true, false, Option, none, some, List, [], ◌∷◌,
  if◌then◌else◌, leb, length, ◌≡◌, refl, arith, ◌∙◌, Result, ok, err, ◌>>=◌,
}
use aurora_old.Base.Int.{ℤ, pos, int64-suc}
use aurora_old.Base.Assoc.{lookup, lookup-insert}
use aurora_old.Job.Types.{
  JobError, not_found, Job, retrying, failed, succeeded, canceled, is_terminal,
}
use aurora_old.Job.Store.{
  JobStore, amend_found, amend, settle, fail, cancel, succeed, count_failure, retry_or_give_up,
  mark_failed, mark_canceled, mark_succeeded,
}

-- A change in place replaces the job that it names, and no other.
pub amend-lookup :
    (id : String) (s : JobStore) (f : Job → Result JobError Job) (j j' : Job)
    → lookup id s.jobs ≡ some j
    → f j ≡ ok j'
    → ((amend id s f).1 ≡ ok tt)
      × ((i : String)
          → lookup i (amend id s f).0.jobs ≡ (if id == i then some j' else lookup i s.jobs))
unfolding amend
amend-lookup id s f j j' e h = rw (e, h) (refl, λ i. lookup-insert id i j' s.jobs)

pub amend_missing :
    (id : String) (s : JobStore) (f : Job → Result JobError Job)
    → lookup id s.jobs ≡ none
    → amend id s f ≡ (s, err not_found)
unfolding amend
amend_missing id s f e = rw e

pub amend_refused :
    (id : String) (s : JobStore) (f : Job → Result JobError Job) (x : JobError)
    → (amend id s f).1 ≡ err x
    → (amend id s f).0 ≡ s
unfolding amend
amend_refused id s f x h = go (lookup id s.jobs) h
  where
    settled : (r : Result JobError Job) → (settle id s r).1 ≡ err x → (settle id s r).0 ≡ s
    settled (ok j) h = cc
    settled (err e) h = refl

    go : (o : Option Job) → (amend_found id s f o).1 ≡ err x → (amend_found id s f o).0 ≡ s
    go none h = refl
    go (some j) h = settled (f j) h

cancel_lem :
    (now : ℤ) (why : String) (j : Job)
    → is_terminal j.status ≡ false
    → (j' : Job) × (cancel now why j ≡ ok j')
      × (j'.status ≡ canceled)
      × (j'.retry_count ≡ j.retry_count)
      × (j'.max_retries ≡ j.max_retries)
unfolding cancel
cancel_lem now why j h = (
  record j {
    status = canceled;
    error = why;
    completed_at = some now;
    locked_by_worker = "";
    locked_until = none;
  },
  rw h,
  refl,
  refl,
  refl,
)

succeed_lem :
    (now : ℤ) (text : String) (j : Job)
    → (j' : Job) × (succeed now text j ≡ ok j') × (j'.status ≡ succeeded)
unfolding succeed
succeed_lem now text j = (
  record j {
    status = succeeded;
    result = text;
    error = "";
    progress_percent = pos 100;
    completed_at = some now;
    locked_by_worker = "";
    locked_until = none;
  },
  refl,
  refl,
)

leb_of_le : {a b : ℕ} → a ≤ b → leb a b ≡ true
leb_of_le h = ground arith

-- After a change in place the job that it names is the changed one.
pub amend-lookup_self :
    (id : String) (s : JobStore) (f : Job → Result JobError Job) (j j' : Job)
    → lookup id s.jobs ≡ some j
    → f j ≡ ok j'
    → lookup id (amend id s f).0.jobs ≡ some j'
amend-lookup_self id s f j j' e h = rw ((amend-lookup id s f j j' e h).1 id, eq_refl)

-- One failure after the other: the time, the message and the delay of each.
abbrev pub fail_all : List (ℤ × String × ℤ) → Job → Result JobError Job
fail_all [] j = ok j
fail_all ((now, reason, d) ∷ l) j = fail now reason (some d) j >>= fail_all l

count_failure_lem :
    (reason : String) (j : Job) (c : ℕ)
    → j.retry_count ≡ pos c
    → suc c ≤ 2 ^ 63 - 1
    → (count_failure reason j).retry_count ≡ pos (suc c)
unfolding count_failure
count_failure_lem reason j c e h = rw e (int64-suc c h)

count_failure-budget :
    (reason : String) (j : Job) → (count_failure reason j).max_retries ≡ j.max_retries
unfolding count_failure
count_failure-budget reason j = refl

retry_or_give_up_lem :
    (now d : ℤ) (j : Job) {c m : ℕ}
    → j.retry_count ≡ pos c
    → j.max_retries ≡ pos m
    → let j' = retry_or_give_up now d j in
      (j'.retry_count ≡ pos c)
      × (j'.max_retries ≡ pos m)
      × (j'.status ≡ (if leb c m then retrying else failed))
unfolding retry_or_give_up
retry_or_give_up_lem now d j e f = ground arith

fail_once :
    (now : ℤ) (reason : String) (d : ℤ) (j : Job) {c m : ℕ}
    → j.retry_count ≡ pos c
    → j.max_retries ≡ pos m
    → suc c ≤ 2 ^ 63 - 1
    → (j' : Job) × (fail now reason (some d) j ≡ ok j')
      × (j'.retry_count ≡ pos (suc c))
      × (j'.max_retries ≡ pos m)
      × (j'.status ≡ (if leb (suc c) m then retrying else failed))
unfolding fail
fail_once now reason d j {c} {m} ec em h =
    let k = count_failure reason j in
    let (a, b, s) =
      retry_or_give_up_lem now d k {c = suc c} {m = m} (count_failure_lem reason j c ec h)
        (count_failure-budget reason j ∙ em) in
    (retry_or_give_up now d k, refl, a, b, s)

-- A job that has failed `c` times and may be tried again `m` times, and fails once or more, waits
-- for a retry as long as its failures are within the budget, and has failed for good after that. All
-- its failures together number less than 2^63.
pub fail_all-status :
    (x : ℤ × String × ℤ) (l : List (ℤ × String × ℤ)) (j : Job) {c m : ℕ}
    → j.retry_count ≡ pos c
    → j.max_retries ≡ pos m
    → c + suc (length l) ≤ 2 ^ 63 - 1
    → (j' : Job) × (fail_all (x ∷ l) j ≡ ok j')
      × (j'.retry_count ≡ pos (c + suc (length l)))
      × (j'.status ≡ (if leb (c + suc (length l)) m then retrying else failed))
fail_all-status (now, reason, d) [] j {c} {m} ec em h =
    let (j', e, a, b, st) = fail_once now reason d j {c = c} {m = m} ec em (omega arith) in
    let n : c + 1 ≡ suc c = omega arith in (j', rw e, rw n a, rw n st)
fail_all-status (now, reason, d) (y ∷ l) j {c} {m} ec em h =
    let (j', e, a, b, st) = fail_once now reason d j {c = c} {m = m} ec em (omega arith) in
    let (k, f, a', st') = fail_all-status y l j' {c = suc c} {m = m} a b (omega arith) in
    let n : c + suc (suc (length l)) ≡ suc c + suc (length l) = omega arith in
    (k, rw e f, rw n a', rw n st')

-- A job that is canceled while its handler runs does not stay canceled: a handler that then fails
-- queues it for a retry while its budget lasts, and one that then returns marks it succeeded.
pub canceled_revived :
    (now later : ℤ) (id why text : String) (d : ℤ) (s : JobStore) (j : Job) {c m : ℕ}
    → lookup id s.jobs ≡ some j
    → is_terminal j.status ≡ false
    → j.retry_count ≡ pos c
    → j.max_retries ≡ pos m
    → suc c ≤ m
    → suc c ≤ 2 ^ 63 - 1
    → let s' = (mark_canceled now id why s).0 in
      ((j1 : Job) × (lookup id s'.jobs ≡ some j1) × (j1.status ≡ canceled))
      × ((j2 : Job) × (lookup id (mark_failed later id text (some d) s').0.jobs ≡ some j2)
          × (j2.status ≡ retrying))
      × ((j3 : Job) × (lookup id (mark_succeeded later id text s').0.jobs ≡ some j3)
          × (j3.status ≡ succeeded))
unfolding mark_canceled mark_failed mark_succeeded
canceled_revived now later id why text d s j {c} {m} e t ec em h k =
    let (j1, f1, st1, c1, m1) = cancel_lem now why j t in
    let here1 = amend-lookup_self id s (cancel now why) j j1 e f1 in
    let s' = (amend id s (cancel now why)).0 in
    let (j2, f2, c2, m2, st2) = fail_once later text d j1 {c = c} {m = m} (c1 ∙ ec) (m1 ∙ em) k in
    let (j3, f3, st3) = succeed_lem later text j1 in
    (
      (j1, here1, st1),
      (
        j2,
        amend-lookup_self id s' (fail later text (some d)) j1 j2 here1 f2,
        st2 ∙ rw (leb_of_le h),
      ),
      (j3, amend-lookup_self id s' (succeed later text) j1 j3 here1 f3, st3),
    )
