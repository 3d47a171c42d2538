-- ===== src/Job/Ticks.antt =====
-- A worker's tick, run with nothing in between, is a sequence of the system's steps, so what holds in
-- every reachable state holds after every tick.
use aurora_old.Base.{String, Option, none, some, List, [], ◌∷◌, map}
use aurora_old.Base.Int.{ℤ}
use aurora_old.Base.Assoc.{lookup}
use aurora_old.Job.Types.{Job}
use aurora_old.Job.World.{Engine, Handler, World}
use aurora_old.Job.Worker.{
  Readings, report, execute_job, process_next_job, run_claimed, run_handler, claim_and_run,
}
use aurora_old.Job.System.{claims, reports, finishes, lacks_handler, Reach, here, next}

pub Reach-trans : {w t u : World} → Reach w t → Reach t u → Reach w u
Reach-trans r here = r
Reach-trans r (next q s) = next (Reach-trans r q) s

report-Reach : (id : String) (l : List ℤ) (w : World) → Reach w (report id l w)
unfolding report
report-Reach id [] w = here
report-Reach id (p ∷ l) w = Reach-trans (next here (reports id p)) (report-Reach id l _)

run_handler-Reach :
    (e : Engine) (r : Readings) (j : Job) (w : World) (h : Option Handler)
    → Reach w (run_handler e r j w h)
run_handler-Reach e r j w none = next here (lacks_handler _ _ _)
run_handler-Reach e r j w (some h) =
    next (report-Reach j.id (h j).progress w) (finishes e r j (h j).outcome)

run_claimed-Reach :
    (e : Engine) (r : Readings) (w : World) (o : Option Job) → Reach w (run_claimed e r w o)
unfolding execute_job
run_claimed-Reach e r w none = here
run_claimed-Reach e r w (some j) = run_handler-Reach e r j w (lookup j.job_type e.handlers)

-- A worker's tick, which claims a job, runs its handler and records how it ended, with nothing in
-- between, is a sequence of steps of the system.
process_next_job-Reach :
    (e : Engine) (now : ℤ) (r : Readings) (w : World) → Reach w (process_next_job e now r w)
unfolding process_next_job
process_next_job-Reach e now r w = go (map (λ h. h.0) e.handlers)
  where
    go : (ts : List String) → Reach w (claim_and_run e now r w ts)
    go [] = here
    go (t ∷ ts) = Reach-trans (next here (claims e now (t ∷ ts))) (run_claimed-Reach e r _ _)
