-- ===== src/Job/Finishes.antt =====
-- internal/app/job/engine.go: the progress reports of an execution and its end, in the store.
use Prim.Native.String.{◌++◌}
use aurora_old.Base.{
  String, eq_iff, none, some, List, [], ◌∷◌, ◌≡◌, ◌≢◌, ◌∙◌, refl, arith, Result, ok,
}
use aurora_old.Base.Int.{ℤ, pos, ◌+ℤ◌, ◌≤ℤ◌, ◌<ℤ◌, int64}
use aurora_old.Base.Assoc.{Assoc, lookup}
use aurora_old.Job.Types.{JobError, Job, retrying, succeeded, failed}
use aurora_old.Job.Store.{
  JobStore, amend, set_progress, update_progress, record_attempt, succeed, fail, mark_succeeded,
  mark_failed, retry_or_give_up, count_failure,
}
use aurora_old.Job.Backoff.{calculate_backoff}
use aurora_old.Job.World.{Outcome, returned, failed_with, panicked, Engine, World, with_store}
use aurora_old.Job.Worker.{Readings, finish_failed, finish_succeeded, finish, report}
use aurora_old.Job.Marks.{amend-lookup, amend-lookup_self}
use aurora_old.Job.System.{publish-store}

-- One entry holds the job now, and the others are as before.
abbrev pub IsOnly : String → Job → Assoc Job → Assoc Job → Type 0
IsOnly id k m m' = (lookup id m' ≡ some k) × ((i : String) → i ≢ id → lookup i m' ≡ lookup i m)

pub IsOnly-trans :
    (id : String) (j k : Job) (l m n : Assoc Job)
    → IsOnly id j l m
    → IsOnly id k m n
    → IsOnly id k l n
IsOnly-trans id j k l m n a b = (b.0, λ i h. b.1 i h ∙ a.1 i h)

amend-IsOnly :
    (id : String) (s : JobStore) (f : Job → Result JobError Job) (j k : Job)
    → lookup id s.jobs ≡ some j
    → f j ≡ ok k
    → IsOnly id k s.jobs (amend id s f).0.jobs
amend-IsOnly id s f j k e h = (
  amend-lookup_self id s f j k e h,
  λ i n. let a = (amend-lookup id s f j k e h).1 i in ground (arith, a, eq_iff id i),
)

pub report-IsOnly :
    (id : String) (l : List ℤ) (w : World) (j : Job)
    → lookup id w.store.jobs ≡ some j
    → (p : ℤ) × IsOnly id
        (record j { progress_percent = p })
        w.store.jobs
        (report id l w).store.jobs
unfolding report update_progress set_progress
report-IsOnly id [] w j h = (j.progress_percent, (h, λ i n. refl))
report-IsOnly id (q ∷ l) w j h =
    let k = record j { progress_percent = q } in
    let a = amend-IsOnly id w.store (set_progress q) j k h refl in
    let (p, b) = report-IsOnly id l (with_store w (update_progress id q w.store).0) k a.0 in
    (p, IsOnly-trans id k (record j { progress_percent = p }) w.store.jobs _ _ a b)

-- A failure is counted and its text kept; within the budget the job waits for a retry, for the backoff
-- of that many failures from the time of the call, and over it has failed.
abbrev pub IsFailed : Readings → Job → String → Job → Type 0
IsFailed r j text k =
    (k.error ≡ text)
    × (k.retry_count ≡ int64 (j.retry_count +ℤ pos 1))
    × (k.retry_count ≤ℤ j.max_retries
        → (k.status ≡ retrying)
          × (k.next_retry_at ≡ some (r.marked_at +ℤ calculate_backoff r.sample k.retry_count)))
    × (j.max_retries <ℤ k.retry_count → k.status ≡ failed)

-- What a job becomes by the outcome of its handler.
abbrev pub IsEnded : Readings → Job → Outcome → Job → Type 0
IsEnded r j (returned text) k =
    (k.status ≡ succeeded) × (k.result ≡ text) × (k.error ≡ "") × (k.retry_count ≡ j.retry_count)
IsEnded r j (failed_with text) k = IsFailed r j text k
IsEnded r j (panicked value) k = IsFailed r j ("panic in job handler: " ++ value) k

-- Nobody holds it.
abbrev pub IsIdle : Job → Type 0
IsIdle k = (k.locked_by_worker ≡ "") × (k.locked_until ≡ none)

after_failure :
    (now d : ℤ) (c : Job)
    → let k = retry_or_give_up now d c in
      (k.error ≡ c.error)
      × (k.retry_count ≡ c.retry_count)
      × (c.retry_count ≤ℤ c.max_retries
          → (k.status ≡ retrying) × (k.next_retry_at ≡ some (now +ℤ d)))
      × (c.max_retries <ℤ c.retry_count → k.status ≡ failed)
      × IsIdle k
unfolding retry_or_give_up
after_failure now d c = (
  ground arith,
  ground arith,
  λ h. (ground arith, ground arith),
  λ h. ground arith,
  (ground arith, ground arith),
)

fail-IsFailed :
    (r : Readings) (j : Job) (p : ℤ) (text : String)
    → (k : Job) × (fail r.marked_at text
          (some (calculate_backoff r.sample (int64 (j.retry_count +ℤ pos 1))))
          (record j { progress_percent = p })
        ≡ ok k)
      × IsFailed r j text k
      × IsIdle k
unfolding fail count_failure
fail-IsFailed r j p text =
    let d = calculate_backoff r.sample (int64 (j.retry_count +ℤ pos 1)) in
    let c = count_failure text (record j { progress_percent = p }) in
    let (a, b, x, y, z) = after_failure r.marked_at d c in
    (
      retry_or_give_up r.marked_at d c,
      refl,
      (a, b, λ h. let n = rw b at h in ((x n).0, rw b (x n).1), λ h. y (rw b at h)),
      z,
    )

finish_failed-IsFailed :
    (e : Engine) (r : Readings) (j : Job) (p : ℤ) (text : String) (w : World)
    → lookup j.id w.store.jobs ≡ some (record j { progress_percent = p })
    → (k : Job) × IsOnly j.id k w.store.jobs (finish_failed e r j text w).store.jobs
      × IsFailed r j text k
      × IsIdle k
unfolding finish_failed mark_failed record_attempt
finish_failed-IsFailed e r j p text w h =
    let (k, f, a, b) = fail-IsFailed r j p text in
    (
      k,
      rw publish-store (
          amend-IsOnly j.id _
            (fail r.marked_at text
              (some (calculate_backoff r.sample (int64 (j.retry_count +ℤ pos 1)))))
            (record j { progress_percent = p }) k h f),
      a,
      b,
    )

pub finish-IsEnded :
    (e : Engine) (r : Readings) (j : Job) (p : ℤ) (o : Outcome) (w : World)
    → lookup j.id w.store.jobs ≡ some (record j { progress_percent = p })
    → (k : Job) × IsOnly j.id k w.store.jobs (finish e r j o w).store.jobs
      × IsEnded r j o k
      × IsIdle k
unfolding finish finish_succeeded mark_succeeded record_attempt succeed
finish-IsEnded e r j p (returned text) w h = (
  record j {
    status = succeeded;
    result = text;
    error = "";
    progress_percent = pos 100;
    completed_at = some r.marked_at;
    locked_by_worker = "";
    locked_until = none;
  },
  rw publish-store
      (amend-IsOnly j.id _ (succeed r.marked_at text) (record j { progress_percent = p }) _ h refl),
  (refl, refl, refl, refl),
  (refl, refl),
)
finish-IsEnded e r j p (failed_with text) w h = finish_failed-IsFailed e r j p text w h
finish-IsEnded e r j p (panicked value) w h =
    finish_failed-IsFailed e r j p ("panic in job handler: " ++ value) w h
