-- ===== src/Job/Store.antt =====
-- internal/infra/memory/job_repo.go: the repository, one function for each method. `now` is the
-- value of `time.Now()` and `new_id` that of `uuid.NewString()`. The mutex makes each call atomic.
-- A call returns the store and its result.
use aurora_old.Base.{
  String, ◌==◌, Bool, true, false, not, ◌&&◌, ◌||◌, Option, none, some, List, [], ◌∷◌, ◌++◌, keep,
  map, is_some, if◌then◌else◌, Result, ok, err,
}
use aurora_old.Base.Int.{ℤ, pos, ◌+ℤ◌, ltb_ℤ, leb_ℤ, eqb_ℤ, int64}
use aurora_old.Base.Assoc.{Assoc, lookup, insert, erase}
use aurora_old.Job.Types.{
  JobError, not_found, already_claimed, cannot_cancel, Status, unset, pending, running, retrying,
  succeeded, failed, canceled, status_is, is_terminal, Job, JobAttempt, WorkerLease,
}

pub record JobStore : Type 0 where
  pub jobs : Assoc Job
  pub attempts : Assoc (List JobAttempt)
  pub leases : Assoc WorkerLease

unfoldable pub new_store : JobStore
new_store = record { jobs = []; attempts = []; leases = [] }

abbrev pub put : Job → JobStore → JobStore
put j s = record s { jobs = insert j.id j s.jobs }

-- `j, exists := jobs[id]; if !exists { return ErrJobNotFound }`, then a change of `*j` in place.
abbrev pub settle : String → JobStore → Result JobError Job → JobStore × Result JobError (Unit {0})
settle id s (err e) = (s, err e)
settle id s (ok j) = (record s { jobs = insert id j s.jobs }, ok tt)

abbrev pub amend_found :
    String
    → JobStore
    → (Job → Result JobError Job)
    → Option Job
    → JobStore × Result JobError (Unit {0})
amend_found id s f none = (s, err not_found)
amend_found id s f (some j) = settle id s (f j)

unfoldable pub amend :
    String → JobStore → (Job → Result JobError Job) → JobStore × Result JobError (Unit {0})
amend id s f = amend_found id s f (lookup id s.jobs)

-- `Create` fills the defaults in the caller's job too, which is returned.
unfoldable pub with_defaults : String → ℤ → Job → Job
with_defaults new_id now j = record j {
  id = if j.id == "" then new_id else j.id;
  created_at = if eqb_ℤ j.created_at (pos 0) then now else j.created_at;
  status = if status_is j.status unset then pending else j.status;
  max_retries = if eqb_ℤ j.max_retries (pos 0) then pos 3 else j.max_retries;
}

unfoldable pub create : String → ℤ → Job → JobStore → JobStore × Job
create new_id now j s = let j' = with_defaults new_id now j in (put j' s, j')

unfoldable pub get_by_id : String → JobStore → Result JobError Job
get_by_id id s = elim (lookup id s.jobs) [ none ↦ err not_found | some j ↦ ok j ]

-- `typeMap[t]`
unfoldable pub type_listed : String → List String → Bool
type_listed t [] = false
type_listed t (u ∷ us) = if u == t then true else type_listed t us

abbrev type_fits : List String → Job → Bool
type_fits [] j = true
type_fits (t ∷ ts) j = type_listed j.job_type (t ∷ ts)

abbrev due : ℤ → Option ℤ → Bool
due now none = true
due now (some t) = ltb_ℤ t now || eqb_ℤ now t

abbrev lease_expired : ℤ → Option ℤ → Bool
lease_expired now none = false
lease_expired now (some t) = ltb_ℤ t now

eligible_in : Status → ℤ → Job → Bool
eligible_in pending now j = true
eligible_in retrying now j = due now j.next_retry_at
eligible_in running now j = lease_expired now j.locked_until
eligible_in _ now j = false

unfoldable pub eligible : ℤ → Job → Bool
unfolding eligible_in
eligible now j = eligible_in j.status now j

unfoldable pub claimable : ℤ → List String → Job → Bool
claimable now types j = type_fits types j && eligible now j

unfoldable pub take_lease : ℤ → String → ℤ → Job → Job
take_lease now worker lease j = record j {
  status = running;
  locked_by_worker = worker;
  locked_until = some (now +ℤ lease);
  started_at = if is_some j.started_at then j.started_at else some now;
}

-- The loop of `ClaimNextPending`: the first entry that passes is leased and returned.
unfoldable pub claim_from : ℤ → String → ℤ → List String → Assoc Job → Assoc Job × Option Job
claim_from now worker lease types [] = ([], none)
claim_from now worker lease types ((k, j) ∷ m) =
    if claimable now types j
    then ((k, take_lease now worker lease j) ∷ m, some (take_lease now worker lease j))
    else (let (m', r) = claim_from now worker lease types m in ((k, j) ∷ m', r))

unfoldable pub claim_next_pending : ℤ → String → ℤ → List String → JobStore → JobStore × Option Job
claim_next_pending now worker lease types s =
    let (m, r) = claim_from now worker lease types s.jobs in (record s { jobs = m }, r)

unfoldable pub renew : ℤ → String → ℤ → Job → Result JobError Job
renew now worker lease j =
    if not (j.locked_by_worker == worker)
    then err already_claimed
    else ok (record j { locked_until = some (now +ℤ lease) })

unfoldable pub renew_lease :
    ℤ → String → String → ℤ → JobStore → JobStore × Result JobError (Unit {0})
unfolding amend renew
renew_lease now id worker lease s = amend id s (renew now worker lease)

unfoldable pub set_progress : ℤ → Job → Result JobError Job
set_progress percent j = ok (record j { progress_percent = percent })

unfoldable pub update_progress : String → ℤ → JobStore → JobStore × Result JobError (Unit {0})
unfolding amend set_progress
update_progress id percent s = amend id s (set_progress percent)

unfoldable pub start : ℤ → String → Job → Result JobError Job
start now worker j =
    ok (record j { status = running; locked_by_worker = worker; started_at = some now })

unfoldable pub mark_running : ℤ → String → String → JobStore → JobStore × Result JobError (Unit {0})
unfolding amend start
mark_running now id worker s = amend id s (start now worker)

unfoldable pub succeed : ℤ → String → Job → Result JobError Job
succeed now result j = ok (record j {
  status = succeeded;
  result = result;
  error = "";
  progress_percent = pos 100;
  completed_at = some now;
  locked_by_worker = "";
  locked_until = none;
})

unfoldable pub mark_succeeded :
    ℤ → String → String → JobStore → JobStore × Result JobError (Unit {0})
unfolding amend succeed
mark_succeeded now id result s = amend id s (succeed now result)

-- `j.RetryCount++` on an `int`.
unfoldable pub count_failure : String → Job → Job
count_failure reason j = record j { error = reason; retry_count = int64 (j.retry_count +ℤ pos 1) }

give_up : ℤ → Job → Job
give_up now j = record j {
  status = failed;
  completed_at = some now;
  locked_by_worker = "";
  locked_until = none;
}

try_again : ℤ → ℤ → Job → Job
try_again now retry_in j = record j {
  status = retrying;
  next_retry_at = some (now +ℤ retry_in);
  locked_by_worker = "";
  locked_until = none;
}

-- The test of the retry budget, on a job whose failure is counted.
unfoldable pub retry_or_give_up : ℤ → ℤ → Job → Job
unfolding give_up try_again
retry_or_give_up now retry_in c =
    if leb_ℤ c.retry_count c.max_retries then try_again now retry_in c else give_up now c

unfoldable pub fail : ℤ → String → Option ℤ → Job → Result JobError Job
unfolding count_failure give_up retry_or_give_up
fail now reason none j = ok (give_up now (count_failure reason j))
fail now reason (some retry_in) j = ok (retry_or_give_up now retry_in (count_failure reason j))

unfoldable pub mark_failed :
    ℤ → String → String → Option ℤ → JobStore → JobStore × Result JobError (Unit {0})
unfolding amend fail
mark_failed now id reason retry_in s = amend id s (fail now reason retry_in)

unfoldable pub cancel : ℤ → String → Job → Result JobError Job
cancel now reason j =
    if is_terminal j.status
    then err cannot_cancel
    else ok (record j {
      status = canceled;
      error = reason;
      completed_at = some now;
      locked_by_worker = "";
      locked_until = none;
    })

unfoldable pub mark_canceled :
    ℤ → String → String → JobStore → JobStore × Result JobError (Unit {0})
unfolding amend cancel
mark_canceled now id reason s = amend id s (cancel now reason)

abbrev attempts_of : String → Assoc (List JobAttempt) → List JobAttempt
attempts_of id m = elim (lookup id m) [ none ↦ [] | some l ↦ l ]

unfoldable pub record_attempt : String → JobAttempt → JobStore → JobStore
record_attempt new_id a s =
    let a' = record a { id = if a.id == "" then new_id else a.id } in
    record s { attempts = insert a.job_id (attempts_of a.job_id s.attempts ++ a' ∷ []) s.attempts }

abbrev locked_before : ℤ → Option ℤ → Bool
locked_before cutoff none = false
locked_before cutoff (some t) = ltb_ℤ t cutoff

unfoldable pub abandoned : ℤ → Job → Bool
abandoned cutoff j = status_is j.status running && locked_before cutoff j.locked_until

unfoldable pub release : Job → Job
release j = record j { status = pending; locked_by_worker = ""; locked_until = none }

-- The loop of `ReclaimAbandonedJobs` and its counter, an `int64`.
unfoldable pub reclaim_from : ℤ → Assoc Job → ℤ → Assoc Job × ℤ
reclaim_from cutoff [] n = ([], n)
reclaim_from cutoff ((k, j) ∷ m) n =
    let (m', n') = reclaim_from cutoff m (if abandoned cutoff j then int64 (n +ℤ pos 1) else n) in
    ((k, if abandoned cutoff j then release j else j) ∷ m', n')

unfoldable pub reclaim_abandoned : ℤ → JobStore → JobStore × ℤ
reclaim_abandoned cutoff s =
    let (m, n) = reclaim_from cutoff s.jobs (pos 0) in (record s { jobs = m }, n)

unfoldable pub register_or_heartbeat : WorkerLease → JobStore → JobStore
register_or_heartbeat l s = record s { leases = insert l.worker_id l s.leases }

unfoldable pub stale_workers : ℤ → JobStore → List WorkerLease
stale_workers cutoff s = keep (λ l. ltb_ℤ l.heartbeat_at cutoff) (map (λ e. e.1) s.leases)

unfoldable pub deregister : String → JobStore → JobStore
deregister worker s = record s { leases = erase worker s.leases }
