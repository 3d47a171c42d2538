-- ===== src/Job/Recovery.antt =====
-- No job is lost: what the recovery loop gives back, and when a job is up for a lease again.
use aurora_old.Base.{
  String, true, false, Option, none, some, [], ◌∷◌, if◌then◌else◌, ◌≡◌, refl, arith, inl, inr,
  Bool-cases, Option-cases, ap, ◌∙◌,
}
use aurora_old.Base.Int.{ℤ, pos, ◌+ℤ◌, ◌-ℤ◌, int64, ◌<ℤ◌}
use aurora_old.Base.Assoc.{Assoc, lookup, Each-lookup}
use aurora_old.Job.Types.{Job, pending, running, is_terminal, status_is}
use aurora_old.Job.Store.{
  eligible, abandoned, release, reclaim_from, reclaim_abandoned, register_or_heartbeat,
}
use aurora_old.Job.World.{Engine, World}
use aurora_old.Job.Worker.{heartbeat_tick}
use aurora_old.Job.Invariant.{IsSound}
use aurora_old.Job.System.{Reach, AreOrderly, empty_world, Reach-Inv}

-- What the recovery loop makes of one job.
abbrev reclaimed : ℤ → Job → Job
reclaimed cutoff j = if abandoned cutoff j then release j else j

abbrev map_found : (Job → Job) → Option Job → Option Job
map_found f none = none
map_found f (some j) = some (f j)

reclaim_from-lookup :
    (cutoff : ℤ) (k : String) (m : Assoc Job) (n : ℤ)
    → lookup k (reclaim_from cutoff m n).0 ≡ map_found (reclaimed cutoff) (lookup k m)
unfolding reclaim_from lookup
reclaim_from-lookup cutoff k [] n = refl
reclaim_from-lookup cutoff k ((i, j) ∷ m) n =
    ground
      (arith, reclaim_from-lookup cutoff k m (if abandoned cutoff j then int64 (n +ℤ pos 1) else n))

-- Its lease ran out before the cutoff.
abbrev pub IsAbandoned : ℤ → Job → Type 0
IsAbandoned cutoff j = (j.status ≡ running) × ((t : ℤ) × (j.locked_until ≡ some t) × (t <ℤ cutoff))

-- What is given back: pending and held by nobody, else the same.
abbrev pub given_back : Job → Job
given_back j = record j { status = pending; locked_by_worker = ""; locked_until = none }

reclaimed-given_back :
    (cutoff : ℤ) (j : Job) → IsAbandoned cutoff j → reclaimed cutoff j ≡ given_back j
unfolding abandoned release
reclaimed-given_back cutoff j (a, (t, b, c)) = ground arith

abandoned-IsAbandoned : (cutoff : ℤ) (j : Job) → abandoned cutoff j ≡ true → IsAbandoned cutoff j
unfolding abandoned
abandoned-IsAbandoned cutoff j h = elim (Option-cases j.locked_until) [
  | inl b ↦ ground arith
  | inr (t, b) ↦ (ground arith, (t, b, ground arith))
]

reclaimed_kept : (cutoff : ℤ) (j : Job) → ¬ (IsAbandoned cutoff j) → reclaimed cutoff j ≡ j
unfolding abandoned release
reclaimed_kept cutoff j n = elim (Bool-cases (abandoned cutoff j)) [
  | inl b ↦ absurd (n (abandoned-IsAbandoned cutoff j b))
  | inr b ↦ rw b refl
]

tick-reclaimed :
    (e : Engine) (hostname : String) (pid now : ℤ) (w : World) (k : String)
    → lookup k (heartbeat_tick e hostname pid now w).store.jobs
      ≡ map_found (reclaimed (now -ℤ e.lease_duration)) (lookup k w.store.jobs)
unfolding heartbeat_tick reclaim_abandoned register_or_heartbeat
tick-reclaimed e hostname pid now w k = elim (Bool-cases e.has_leases) [
  | inl b ↦ rw b (reclaim_from-lookup _ k w.store.jobs (pos 0))
  | inr b ↦ rw b (reclaim_from-lookup _ k w.store.jobs (pos 0))
]

given_back-eligible : (later : ℤ) (j : Job) → eligible later (given_back j) ≡ true
unfolding eligible
given_back-eligible later j = refl

-- A heartbeat gives back each running job whose lease ran out more than a lease duration before it:
-- the job is pending then, held by nobody, the same in all else, and up for a claim at any time. A
-- job that does not run, has no lease, or whose lease ran out later, is left as it is, and no
-- job is added.
pub heartbeat-lookup :
    (e : Engine) (hostname : String) (pid now : ℤ) (w : World) (k : String)
    → let after = (heartbeat_tick e hostname pid now w).store.jobs in
      (lookup k w.store.jobs ≡ none → lookup k after ≡ none)
      × ((j : Job)
          → lookup k w.store.jobs ≡ some j
          → (IsAbandoned (now -ℤ e.lease_duration) j
              → (lookup k after ≡ some (given_back j))
                × ((later : ℤ) → eligible later (given_back j) ≡ true))
            × (¬ (IsAbandoned (now -ℤ e.lease_duration) j) → lookup k after ≡ some j))
heartbeat-lookup e hostname pid now w k =
    let t = tick-reclaimed e hostname pid now w k in
    (
      λ h. rw h at t,
      λ j h. (
        λ a. (
          (rw h at t) ∙ ap some (reclaimed-given_back _ j a),
          λ later. given_back-eligible later j,
        ),
        λ n. (rw h at t) ∙ ap some (reclaimed_kept _ j n),
      ),
    )

abbrev or_zero : Option ℤ → ℤ
or_zero none = pos 0
or_zero (some t) = t

-- The time that a job which has not ended waits for: the end of its lease while it runs, else the
-- time of its retry, if it has one.
abbrev pub ready_time : Job → ℤ
ready_time j =
    if status_is j.status running then or_zero j.locked_until else or_zero j.next_retry_at

eligible_after :
    (k : String) (j : Job) (now : ℤ)
    → IsSound k j
    → is_terminal j.status ≡ false
    → ready_time j <ℤ now
    → eligible now j ≡ true
unfolding eligible is_terminal
eligible_after k j now g h t = ground arith

-- In every state that the engines reach, where each job was submitted neither running nor waiting for a
-- retry and without a lock, and each engine that renewed a lease has a name, every job that has not
-- ended is up for a lease at all times after the one that it waits for: a worker that dies does not
-- lose it.
pub unfinished_eligible :
    {w : World} (k : String) (j : Job) (now : ℤ) (r : Reach empty_world w)
    → AreOrderly r
    → lookup k w.store.jobs ≡ some j
    → is_terminal j.status ≡ false
    → ready_time j <ℤ now
    → eligible now j ≡ true
unfinished_eligible {w} k j now r o e h t =
    eligible_after k j now (Each-lookup IsSound k w.store.jobs (Reach-Inv r o).sound e) h t
