-- ===== src/Job/Engine.antt =====
-- internal/app/job/engine.go: what callers ask of the engine, over the in-memory repository. Clock
-- readings and fresh identifiers are arguments.
use Prim.Native.String.{◌++◌}
use aurora_old.Base.{
  String, ◌==◌, not, ◌&&◌, Option, none, some, List, [], ◌∷◌, if◌then◌else◌, Result, ok, err, ◌>>=◌,
}
use aurora_old.Base.Int.{ℤ, pos}
use aurora_old.Identity.Subject.{IdentityError, Subject, is_superadmin}
use aurora_old.Job.Types.{
  JobError, denied, cannot_retry, pending, failed, canceled, status_is, Job, resource, JobFilter,
}
use aurora_old.Job.Store.{JobStore, create, get_by_id, mark_canceled}
use aurora_old.Job.Listing.{list_jobs}
use aurora_old.Job.World.{
  Authorizer, Event, AuditLog, Engine, World, publish, audit, with_store, job_event,
}

unfoldable pub owner_of : Option Subject → Job → String
owner_of sub j =
    if j.tenant_id == "" then elim sub [ none ↦ "system" | some s ↦ s.user_id ] else j.tenant_id

abbrev submitted_type : Job → String
submitted_type j = "job." ++ j.job_type ++ ".submitted"

abbrev submitted_event : Job → Event
submitted_event j = record {
  tenant_id = j.tenant_id;
  event_type = submitted_type j;
  resource_type = "job";
  resource_id = j.id;
  actor_id = j.tenant_id;
  payload =
      ("jobType", j.job_type)
      ∷ ("resourceType", j.resource_type)
      ∷ ("resourceId", j.resource_id)
      ∷ [];
}

abbrev submitted_log : ℤ → Job → AuditLog
submitted_log now j = record {
  actor_id = j.tenant_id;
  action = submitted_type j;
  resource_type = "job";
  resource_id = j.id;
  details = ("jobType", j.job_type) ∷ [];
  created_at = now;
}

-- `Submit`; the in-memory `Create` never fails.
unfoldable pub submit : Engine → Option Subject → String → ℤ → Job → World → World × Job
unfolding publish audit
submit e sub new_id now j w =
    let (s, j') = create new_id now (record j { tenant_id = owner_of sub j }) w.store in
    (audit e (submitted_log now j') (publish e (submitted_event j') (with_store w s)), j')

abbrev pub verdict : Option IdentityError → Result JobError (Unit {0})
verdict none = ok tt
verdict (some x) = err (denied x)

-- `if e.authorizer != nil && sub != nil && !sub.IsSuperadmin()`, then ask.
abbrev pub permit_by :
    Option Authorizer → Option Subject → String → Job → Result JobError (Unit {0})
permit_by none sub action j = ok tt
permit_by (some ask) none action j = ok tt
permit_by (some ask) (some s) action j =
    if is_superadmin s then ok tt else verdict (ask (some s) action (some (resource j)))

unfoldable pub permit : Engine → Option Subject → String → Job → Result JobError (Unit {0})
permit e sub action j = permit_by e.authorizer sub action j

unfoldable pub get_job : Engine → Option Subject → String → World → Result JobError Job
get_job e sub id w = do j ← get_by_id id w.store; _ ← permit e sub "job:read" j; ok j

abbrev pub own_filter : Option Subject → JobFilter → JobFilter
own_filter none f = f
own_filter (some s) f = if is_superadmin s then f else record f { tenant_id = s.user_id }

unfoldable pub list_visible : Option Subject → JobFilter → World → Result JobError (List Job × ℤ)
list_visible sub f w = list_jobs (own_filter sub f) w.store

-- The part of `CancelJob` and `RetryJob` before the change: load, then ask for `job:manage`.
unfoldable pub get_managed : Engine → Option Subject → String → World → Result JobError Job
get_managed e sub id w = do j ← get_job e sub id w; _ ← permit e sub "job:manage" j; ok j

-- After `MarkCanceled`: an error goes to the caller, else the event is sent.
abbrev pub cancel_sent :
    Engine
    → Job
    → String
    → World
    → JobStore × Result JobError (Unit {0})
    → World × Result JobError (Unit {0})
cancel_sent e j reason w (s, err x) = (with_store w s, err x)
cancel_sent e j reason w (s, ok _) =
    (publish e (job_event j "job.canceled" (("reason", reason) ∷ [])) (with_store w s), ok tt)

abbrev pub cancel_loaded :
    Engine → ℤ → String → String → World → Result JobError Job → World × Result JobError (Unit {0})
cancel_loaded e now id reason w (err x) = (w, err x)
cancel_loaded e now id reason w (ok j) =
    cancel_sent e j reason w (mark_canceled now id reason w.store)

unfoldable pub cancel_job :
    Engine → Option Subject → ℤ → String → String → World → World × Result JobError (Unit {0})
cancel_job e sub now id reason w = cancel_loaded e now id reason w (get_managed e sub id w)

unfoldable pub reset_job : Job → Job
reset_job j = record j {
  status = pending;
  error = "";
  progress_percent = pos 0;
  next_retry_at = none;
  locked_by_worker = "";
  locked_until = none;
}

abbrev pub retry_loaded : String → ℤ → World → Result JobError Job → World × Result JobError Job
retry_loaded new_id now w (err x) = (w, err x)
retry_loaded new_id now w (ok j) =
    if not (status_is j.status failed) && not (status_is j.status canceled)
    then (w, err cannot_retry)
    else (let (s, j') = create new_id now (reset_job j) w.store in (with_store w s, ok j'))

unfoldable pub retry_job :
    Engine → Option Subject → String → ℤ → String → World → World × Result JobError Job
retry_job e sub new_id now id w = retry_loaded new_id now w (get_managed e sub id w)
