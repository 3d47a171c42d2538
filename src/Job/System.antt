-- ===== src/Job/System.antt =====
-- The queue as a whole: any number of engines on one repository, whose calls interleave in any order.
-- A handler may run across any number of the others' steps, so an execution is a claim, progress
-- reports and a finish, each a step of its own.
use Prim.Native.String.{◌++◌}
use aurora_old.Base.{
  Bool-cases, inl, inr, sym, ◌∙◌, not, ◌&&◌, String, Option, none, List, [], ◌≡◌, ◌≢◌, arith,
  Result, ok, err,
}
use aurora_old.Base.Int.{ℤ}
use aurora_old.Base.Assoc.{Assoc, lookup, IsMap, Each-lookup, Each-of_lookup}
use aurora_old.Identity.Subject.{Subject}
use aurora_old.Job.Types.{Job, status_is, failed, canceled, JobAttempt, JobError}
use aurora_old.Job.Store.{
  JobStore, new_store, claim_next_pending, renew_lease, update_progress, mark_failed, mark_canceled,
  record_attempt, register_or_heartbeat, deregister,
}
use aurora_old.Job.World.{
  Engine, Event, AuditLog, World, Outcome, returned, failed_with, panicked, publish, audit,
  with_store,
}
use aurora_old.Job.Engine.{
  submit, owner_of, get_managed, cancel_sent, cancel_loaded, cancel_job, reset_job, retry_loaded,
  retry_job,
}
use aurora_old.Job.Worker.{Readings, finish, finish_failed, finish_succeeded, heartbeat_tick, close}
use aurora_old.Job.Invariant.{IsSound, Inv, IsFresh, create-Inv, claim-Inv, reclaim-Inv, mark-Inv}

pub data Step (w : World) : World → Type 0 where
  submits :
      (e : Engine) (sub : Option Subject) (new_id : String) (now : ℤ) (j : Job)
      → Step w (submit e sub new_id now j w).0
  cancels :
      (e : Engine) (sub : Option Subject) (now : ℤ) (id reason : String)
      → Step w (cancel_job e sub now id reason w).0
  retries :
      (e : Engine) (sub : Option Subject) (new_id : String) (now : ℤ) (id : String)
      → Step w (retry_job e sub new_id now id w).0
  claims :
      (e : Engine) (now : ℤ) (types : List String)
      → Step w (with_store w (claim_next_pending now e.worker_id e.lease_duration types w.store).0)
  renews :
      (e : Engine) (now : ℤ) (id : String)
      → Step w (with_store w (renew_lease now id e.worker_id e.lease_duration w.store).0)
  reports :
      (id : String) (percent : ℤ) → Step w (with_store w (update_progress id percent w.store).0)
  finishes : (e : Engine) (r : Readings) (j : Job) (o : Outcome) → Step w (finish e r j o w)
  lacks_handler :
      (now : ℤ) (id reason : String)
      → Step w (with_store w (mark_failed now id reason none w.store).0)
  beats :
      (e : Engine) (hostname : String) (pid now : ℤ) → Step w (heartbeat_tick e hostname pid now w)
  closes : (e : Engine) → Step w (close e w)
  -- A `range` over a map may visit the entries in another order the next time.
  reorders :
      (m : Assoc Job)
      → IsMap m
      → ((k : String) → lookup k m ≡ lookup k w.store.jobs)
      → Step w (with_store w (record (w.store) { jobs = m }))

pub data Reach (w : World) : World → Type 0 where
  here : Reach w w
  next : {t u : World} → Reach w t → Step t u → Reach w u

-- What the engine does not check of its callers: a job is submitted that neither runs nor waits for a
-- retry and has no lock, and an engine that renews a lease has a name.
abbrev pub IsOrderly : {w w' : World} → Step w w' → Type 0
IsOrderly (submits e sub new_id now j) = IsFresh j
IsOrderly (cancels e sub now id reason) = Unit
IsOrderly (retries e sub new_id now id) = Unit
IsOrderly (claims e now types) = Unit
IsOrderly (renews e now id) = e.worker_id ≢ ""
IsOrderly (reports id percent) = Unit
IsOrderly (finishes e r j o) = Unit
IsOrderly (lacks_handler now id reason) = Unit
IsOrderly (beats e hostname pid now) = Unit
IsOrderly (closes e) = Unit
IsOrderly (reorders m u same) = Unit

-- So are all steps.
abbrev pub AreOrderly : {w w' : World} → Reach w w' → Type 0
AreOrderly here = Unit
AreOrderly (next r st) = AreOrderly r × IsOrderly st

unfoldable pub empty_world : World
empty_world = record { store = new_store; events = []; audit_logs = [] }

-- What is sent leaves the store alone.
pub publish-store : (e : Engine) (ev : Event) (w : World) → (publish e ev w).store ≡ w.store
unfolding publish
publish-store e ev w = ground arith

audit-store : (e : Engine) (a : AuditLog) (w : World) → (audit e a w).store ≡ w.store
unfolding audit
audit-store e a w = ground arith

submit-Inv :
    (e : Engine) (sub : Option Subject) (new_id : String) (now : ℤ) (j : Job) (w : World)
    → Inv w.store
    → IsFresh j
    → Inv (submit e sub new_id now j w).0.store
unfolding submit
submit-Inv e sub new_id now j w v f =
    rw (audit-store, publish-store)
      (create-Inv new_id now (record j { tenant_id = owner_of sub j }) w.store v (ground arith))

cancel_sent-Inv :
    (e : Engine) (j : Job) (reason : String) (w : World) (r : JobStore × Result JobError (Unit {0}))
    → Inv r.0
    → Inv (cancel_sent e j reason w r).0.store
cancel_sent-Inv e j reason w (s, err x) v = v
cancel_sent-Inv e j reason w (s, ok _) v = rw publish-store v

cancel_loaded-Inv :
    (e : Engine) (now : ℤ) (id reason : String) (w : World) (r : Result JobError Job)
    → Inv w.store
    → Inv (cancel_loaded e now id reason w r).0.store
cancel_loaded-Inv e now id reason w (err x) v = v
cancel_loaded-Inv e now id reason w (ok j) v =
    cancel_sent-Inv e j reason w (mark_canceled now id reason w.store)
      ((mark-Inv id w.store v).4 now reason)

reset_job-IsFresh : (j : Job) → IsFresh (reset_job j)
unfolding reset_job
reset_job-IsFresh j = ground arith

retry_loaded-Inv :
    (new_id : String) (now : ℤ) (w : World) (r : Result JobError Job)
    → Inv w.store
    → Inv (retry_loaded new_id now w r).0.store
retry_loaded-Inv new_id now w (err x) v = v
retry_loaded-Inv new_id now w (ok j) v =
    elim (Bool-cases (not (status_is j.status failed) && not (status_is j.status canceled))) [
      | inl b ↦ rw b v
      | inr b ↦ rw b (create-Inv new_id now (reset_job j) w.store v (reset_job-IsFresh j))
    ]

record_attempt-Inv :
    (new_id : String) (a : JobAttempt) (s : JobStore) → Inv s → Inv (record_attempt new_id a s)
unfolding record_attempt
record_attempt-Inv new_id a s v = record { is_map = v.is_map; sound = v.sound }

finish_failed-Inv :
    (e : Engine) (r : Readings) (j : Job) (reason : String) (w : World)
    → Inv w.store
    → Inv (finish_failed e r j reason w).store
unfolding finish_failed
finish_failed-Inv e r j reason w v =
    rw publish-store
      ((mark-Inv j.id _ (record_attempt-Inv r.attempt_id _ w.store v)).3 r.marked_at reason _)

finish_succeeded-Inv :
    (e : Engine) (r : Readings) (j : Job) (result : String) (w : World)
    → Inv w.store
    → Inv (finish_succeeded e r j result w).store
unfolding finish_succeeded
finish_succeeded-Inv e r j result w v =
    rw publish-store
      ((mark-Inv j.id _ (record_attempt-Inv r.attempt_id _ w.store v)).2 r.marked_at result)

finish-Inv :
    (e : Engine) (r : Readings) (j : Job) (o : Outcome) (w : World)
    → Inv w.store
    → Inv (finish e r j o w).store
unfolding finish
finish-Inv e r j (returned result) w v = finish_succeeded-Inv e r j result w v
finish-Inv e r j (failed_with reason) w v = finish_failed-Inv e r j reason w v
finish-Inv e r j (panicked value) w v =
    finish_failed-Inv e r j ("panic in job handler: " ++ value) w v

heartbeat_tick-Inv :
    (e : Engine) (hostname : String) (pid now : ℤ) (w : World)
    → Inv w.store
    → Inv (heartbeat_tick e hostname pid now w).store
unfolding heartbeat_tick register_or_heartbeat
heartbeat_tick-Inv e hostname pid now w v = elim (Bool-cases e.has_leases) [
  | inl b ↦ rw b (reclaim-Inv _ _ (record { is_map = v.is_map; sound = v.sound }))
  | inr b ↦ rw b (reclaim-Inv _ _ v)
]

close-Inv : (e : Engine) (w : World) → Inv w.store → Inv (close e w).store
unfolding close deregister
close-Inv e w v = elim (Bool-cases e.has_leases) [
  | inl b ↦ rw b (record { is_map = v.is_map; sound = v.sound })
  | inr b ↦ rw b v
]

Step-Inv : {w w' : World} (st : Step w w') → IsOrderly st → Inv w.store → Inv w'.store
unfolding cancel_job retry_job
Step-Inv {w} (submits e sub new_id now j) f v = submit-Inv e sub new_id now j w v f
Step-Inv {w} (cancels e sub now id reason) x v =
    cancel_loaded-Inv e now id reason w (get_managed e sub id w) v
Step-Inv {w} (retries e sub new_id now id) x v =
    retry_loaded-Inv new_id now w (get_managed e sub id w) v
Step-Inv {w} (claims e now types) x v = claim-Inv now e.worker_id e.lease_duration types w.store v
Step-Inv {w} (renews e now id) n v = (mark-Inv id w.store v).0 now e.worker_id e.lease_duration n
Step-Inv {w} (reports id percent) x v = (mark-Inv id w.store v).1 percent
Step-Inv {w} (finishes e r j o) x v = finish-Inv e r j o w v
Step-Inv {w} (lacks_handler now id reason) x v = (mark-Inv id w.store v).3 now reason none
Step-Inv {w} (beats e hostname pid now) x v = heartbeat_tick-Inv e hostname pid now w v
Step-Inv {w} (closes e) x v = close-Inv e w v
Step-Inv {w} (reorders m u same) x v = record {
  is_map = u;
  sound =
      Each-of_lookup IsSound m u
        (λ k j h. Each-lookup IsSound k w.store.jobs v.sound (sym (same k) ∙ h));
}

-- In every state that any number of engines reach from an empty repository, by their calls in any
-- order, each job is stored once, under its identifier; it holds a lock, which runs out some time,
-- exactly while it runs; and a job that waits for a retry has a time for it and failures to spare.
-- The condition, which the engine does not check, is on the callers: each submitted job neither runs
-- nor waits for a retry and has no lock, and an engine that renews a lease has a name.
pub Reach-Inv : {w : World} (r : Reach empty_world w) → AreOrderly r → Inv w.store
unfolding empty_world new_store
Reach-Inv here o = record { is_map = tt; sound = tt }
Reach-Inv (next r st) o = Step-Inv st o.1 (Reach-Inv r o.0)
