-- ===== src/Job/Worker.antt =====
-- internal/app/job/engine.go: what the goroutines do. Each runs one of these ticks at a time; the
-- clock readings, fresh identifiers and random draws of a tick are arguments. A handler that changes
-- its own copy of the job is not modelled.
use Prim.Native.String.{◌++◌}
use aurora_old.Base.{ℕ, ◌*◌, String, Option, none, some, List, [], ◌∷◌, map, if◌then◌else◌}
use aurora_old.Base.Int.{ℤ, pos, ◌+ℤ◌, ◌-ℤ◌, int64}
use aurora_old.Base.Assoc.{lookup}
use aurora_old.Job.Types.{Job, WorkerLease, JobAttempt}
use aurora_old.Job.Store.{
  claim_next_pending, update_progress, mark_succeeded, mark_failed, record_attempt,
  reclaim_abandoned, register_or_heartbeat, deregister,
}
use aurora_old.Job.Backoff.{calculate_backoff, second}
use aurora_old.Job.World.{
  Handler, Outcome, returned, failed_with, panicked, Engine, World, publish, with_store, job_event,
}

-- The readings that finishing an execution takes: the times and the identifier of the attempt, the
-- clock of the repository call, and the random draw of the backoff.
pub record Readings : Type 0 where
  pub attempt_id : String
  pub started_at : ℤ
  pub finished_at : ℤ
  pub marked_at : ℤ
  pub sample : ℕ

abbrev attempt_of : Engine → Readings → Job → String → JobAttempt
attempt_of e r j reason = record {
  id = r.attempt_id;
  job_id = j.id;
  attempt_number = int64 (j.retry_count +ℤ pos 1);
  worker_id = e.worker_id;
  error = reason;
  started_at = r.started_at;
  finished_at = some r.finished_at;
}

-- The end of `executeJob`: `inl` is `execErr`, `inr` the result.
unfoldable pub finish_failed : Engine → Readings → Job → String → World → World
unfolding publish
finish_failed e r j reason w =
    let s = record_attempt r.attempt_id (attempt_of e r j reason) w.store in
    let retry_in = calculate_backoff r.sample (int64 (j.retry_count +ℤ pos 1)) in
    let s' = (mark_failed r.marked_at j.id reason (some retry_in) s).0 in
    publish e (job_event j "job.failed" (("error", reason) ∷ [])) (with_store w s')

unfoldable pub finish_succeeded : Engine → Readings → Job → String → World → World
unfolding publish
finish_succeeded e r j result w =
    let s = record_attempt r.attempt_id (attempt_of e r j "") w.store in
    let s' = (mark_succeeded r.marked_at j.id result s).0 in
    publish e (job_event j "job.succeeded" []) (with_store w s')

-- A panic is an error with a message of its own.
unfoldable pub finish : Engine → Readings → Job → Outcome → World → World
unfolding finish_failed finish_succeeded
finish e r j (returned result) w = finish_succeeded e r j result w
finish e r j (failed_with reason) w = finish_failed e r j reason w
finish e r j (panicked value) w = finish_failed e r j ("panic in job handler: " ++ value) w

-- `UpdateProgress`, once for each report.
unfoldable pub report : String → List ℤ → World → World
report id [] w = w
report id (percent ∷ more) w = report id more (with_store w (update_progress id percent w.store).0)

abbrev no_handler : Readings → Job → World → World
no_handler r j w =
    with_store w
      (mark_failed r.marked_at j.id ("no handler registered for job type " ++ j.job_type) none
        w.store).0

-- `executeJob`, where nothing else touches the store while the handler runs.
abbrev pub run_handler : Engine → Readings → Job → World → Option Handler → World
run_handler e r j w none = no_handler r j w
run_handler e r j w (some handler) =
    finish e r j (handler j).outcome (report j.id (handler j).progress w)

unfoldable pub execute_job : Engine → Readings → Job → World → World
execute_job e r j w = run_handler e r j w (lookup j.job_type e.handlers)

abbrev pub run_claimed : Engine → Readings → World → Option Job → World
run_claimed e r w none = w
run_claimed e r w (some j) = execute_job e r j w

-- Nothing without handlers; else claim, and execute what was claimed.
abbrev pub claim_and_run : Engine → ℤ → Readings → World → List String → World
claim_and_run e now r w [] = w
claim_and_run e now r w (t ∷ ts) =
    let (s, claimed) = claim_next_pending now e.worker_id e.lease_duration (t ∷ ts) w.store in
    run_claimed e r (with_store w s) claimed

-- `processNextJob`: the types with a handler.
unfoldable pub process_next_job : Engine → ℤ → Readings → World → World
process_next_job e now r w = claim_and_run e now r w (map (λ h. h.0) e.handlers)

-- One tick of `heartbeatAndRecoveryLoop`.
unfoldable pub heartbeat_tick : Engine → String → ℤ → ℤ → World → World
heartbeat_tick e hostname pid now w =
    let lease : WorkerLease = record {
      worker_id = e.worker_id;
      hostname = hostname;
      pid = pid;
      status = "active";
      heartbeat_at = now;
      expires_at = now +ℤ pos (15 * second);
      created_at = now;
    } in
    let s = if e.has_leases then register_or_heartbeat lease w.store else w.store in
    with_store w (reclaim_abandoned (now -ℤ e.lease_duration) s).0

-- `Close`, once the workers have stopped.
unfoldable pub close : Engine → World → World
close e w = if e.has_leases then with_store w (deregister e.worker_id w.store) else w
