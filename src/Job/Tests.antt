-- ===== src/Job/Tests.antt =====
-- The job queue at concrete jobs, callers and times.
use aurora_old.Base.{
  eq_iff, ◌*◌, String, ◌==◌, if◌then◌else◌, none, some, [], ◌∷◌, ◌≡◌, ◌≢◌, refl, arith, true, ok,
  err, All, keep, map, length,
}
use aurora_old.Base.Int.{ℤ, pos, ◌+ℤ◌, ◌-ℤ◌, ◌≤ℤ◌, ◌<ℤ◌, int64}
use aurora_old.Base.Assoc.{lookup, insert, IsMap}
use aurora_old.Identity.Subject.{
  Subject, is_superadmin, has_role, has_name, has_permission, scan_permissions,
}
use aurora_old.Identity.Authorizer.{authorize, scope_check, owner_check, is_admin_or_operator}
use aurora_old.Identity.Access.{MayAct}
use aurora_old.Job.Types.{
  Job, JobError, JobFilter, unset, pending, running, retrying, succeeded, canceled, resource,
  is_terminal,
}
use aurora_old.Job.Store.{
  JobStore, new_store, create, with_defaults, claimable, eligible, take_lease, claim_from,
  claim_next_pending, get_by_id, mark_canceled, mark_failed, mark_succeeded, cancel,
}
use aurora_old.Job.Listing.{list_jobs, page, passes, sort_newest}
use aurora_old.Job.Backoff.{second, calculate_backoff}
use aurora_old.Job.World.{Handler, Engine, World, returned, publish, audit}
use aurora_old.Job.Engine.{
  submit, owner_of, get_job, permit, get_managed, cancel_job, retry_job, list_visible,
}
use aurora_old.Job.Worker.{Readings, process_next_job, heartbeat_tick}
use aurora_old.Job.Leases.{claim_exclusive}
use aurora_old.Job.Claims.{IsListed, IsUp, IsTaken, claim-Leased}
use aurora_old.Job.Invariant.{Inv, IsFresh}
use aurora_old.Job.System.{Reach, here, next, submits, empty_world, Reach-Inv}
use aurora_old.Job.Finishes.{IsOnly, IsEnded, IsIdle}
use aurora_old.Job.Endings.{process_next_job-IsEnded}
use aurora_old.Job.Recovery.{unfinished_eligible, IsAbandoned, given_back, heartbeat-lookup}
use aurora_old.Job.Isolation.{cancel_job-MayAct, refused_unchanged}
use aurora_old.Job.Marks.{fail_all, fail_all-status, canceled_revived}
use aurora_old.Job.Pages.{IsNewestFirst, list_jobs-page, list_visible-own}
use aurora_old.Job.Delays.{backoff_bounds}

abbrev draft : Job
draft = record {
  id = "j1";
  tenant_id = "alice";
  job_type = "backup.create";
  resource_type = "instance";
  resource_id = "i1";
  status = unset;
  payload = "{}";
  result = "";
  error = "";
  retry_count = pos 0;
  max_retries = pos 0;
  next_retry_at = none;
  locked_by_worker = "";
  locked_until = none;
  created_at = pos 0;
  started_at = none;
  completed_at = none;
  progress_percent = pos 0;
}

abbrev queued : Job
queued = record draft { status = pending; max_retries = pos 3; created_at = pos 5 }

abbrev store : JobStore
store = record { jobs = ("j1", queued) ∷ []; attempts = []; leases = [] }

abbrev alice : Subject
alice = record {
  type_name = "user";
  id = "alice";
  user_id = "alice";
  username = "alice";
  email = "alice@example.com";
  roles = [];
  permissions = "job:read" ∷ "job:manage" ∷ [];
  scopes = [];
}

abbrev engine : Engine
engine = record {
  authorizer = some authorize;
  publishes = true;
  audits = true;
  has_leases = true;
  worker_id = "w1";
  worker_count = pos 1;
  lease_duration = pos 30;
  handlers =
      ("backup.create", λ j. record { progress = pos 50 ∷ []; outcome = returned "done" }) ∷ [];
}

abbrev world : World
world = record { store = store; events = []; audit_logs = [] }

abbrev leased : Job
leased = record queued {
  status = running;
  locked_by_worker = "w1";
  locked_until = some (pos 40);
  started_at = some (pos 10);
}

claim_once : (claim_next_pending (pos 10) "w1" (pos 30) [] store).1 ≡ some leased
unfolding claim_next_pending claim_from claimable eligible take_lease ◌+ℤ◌
claim_once = refl

claim_after :
    (claim_next_pending (pos 10) "w1" (pos 30) [] store).0
    ≡ record store { jobs = ("j1", leased) ∷ [] }
unfolding claim_next_pending claim_from claimable eligible take_lease ◌+ℤ◌
claim_after = refl

store-IsMap : IsMap store.jobs
unfolding lookup
store-IsMap = (refl, tt)

claim-Leased_example :
    let (s', r) = claim_next_pending (pos 10) "w1" (pos 30) [] store in
    ((j' : Job)
      → r ≡ some j'
      → (k : String) × (j : Job) × (lookup k store.jobs ≡ some j)
        × IsListed [] j
        × IsUp (pos 10) j
        × IsTaken (pos 10) "w1" (pos 30) j j'
        × ((i : String) → lookup i s'.jobs ≡ (if k == i then some j' else lookup i store.jobs)))
    × (r ≡ none
        → (s' ≡ store)
          × ((k : String) (j : Job)
              → lookup k store.jobs ≡ some j
              → ¬ (IsListed [] j × IsUp (pos 10) j)))
claim-Leased_example = claim-Leased (pos 10) "w1" (pos 30) [] store store-IsMap

abbrev second_job : Job
second_job = record queued { id = "j2" }

abbrev pair : JobStore
pair = record { jobs = ("j1", queued) ∷ ("j2", second_job) ∷ []; attempts = []; leases = [] }

abbrev second_leased : Job
second_leased = record leased {
  id = "j2";
  locked_by_worker = "w2";
  locked_until = some (pos 50);
  started_at = some (pos 20);
}

pair-IsMap : IsMap pair.jobs
unfolding lookup
pair-IsMap = (refl, (refl, tt))

first_claim : (claim_next_pending (pos 10) "w1" (pos 30) [] pair).1 ≡ some leased
unfolding claim_next_pending claim_from claimable eligible take_lease ◌+ℤ◌
first_claim = refl

second_claim :
    (claim_next_pending
      (pos 20)
      "w2"
      (pos 30)
      []
      (claim_next_pending (pos 10) "w1" (pos 30) [] pair).0).1
    ≡ some second_leased
unfolding claim_next_pending claim_from claimable eligible take_lease ◌+ℤ◌
second_claim = refl

claim_exclusive_example : ◌≢◌ {A = String} "j1" "j2"
unfolding ◌+ℤ◌
claim_exclusive_example =
    claim_exclusive (pos 10) (pos 20) "w1" "w2" (pos 30) (pos 30) [] [] pair {j1 = leased}
      {j2 = second_leased} pair-IsMap (refl, (refl, tt)) (omega arith) first_claim second_claim

abbrev submitted : World
submitted = (submit engine (some alice) "id" (pos 5) draft empty_world).0

draft-IsFresh : IsFresh draft
draft-IsFresh = ground arith

abbrev submitted-Reach : Reach empty_world submitted
submitted-Reach = next here (submits engine (some alice) "id" (pos 5) draft)

Reach-Inv_example : Inv submitted.store
Reach-Inv_example = Reach-Inv submitted-Reach (tt, draft-IsFresh)

submitted_found : lookup "j1" submitted.store.jobs ≡ some queued
unfolding submit owner_of create with_defaults lookup insert empty_world new_store publish audit
submitted_found = refl

unfinished_eligible_example : eligible (pos 9) queued ≡ true
unfolding is_terminal
unfinished_eligible_example =
    unfinished_eligible "j1" queued (pos 9) submitted-Reach (tt, draft-IsFresh) submitted_found refl
      (omega arith)

abbrev held : World
held = record world { store = record store { jobs = ("j1", leased) ∷ [] } }

heartbeat-lookup_example :
    let after = (heartbeat_tick engine "host" (pos 7) (pos 99) held).store.jobs in
    (lookup "j1" held.store.jobs ≡ none → lookup "j1" after ≡ none)
    × ((j : Job)
        → lookup "j1" held.store.jobs ≡ some j
        → (IsAbandoned (pos 99 -ℤ pos 30) j
            → (lookup "j1" after ≡ some (given_back j))
              × ((later : ℤ) → eligible later (given_back j) ≡ true))
          × (¬ (IsAbandoned (pos 99 -ℤ pos 30) j) → lookup "j1" after ≡ some j))
heartbeat-lookup_example = heartbeat-lookup engine "host" (pos 7) (pos 99) held "j1"

alice_cancels : (cancel_job engine (some alice) (pos 9) "j1" "why" world).1 ≡ ok tt
unfolding cancel_job get_managed get_job permit get_by_id lookup authorize mark_canceled cancel
    is_superadmin has_role has_name has_permission scan_permissions scope_check owner_check resource
    is_terminal is_admin_or_operator
alice_cancels = refl

cancel_job-MayAct_example :
    (j : Job) × (get_by_id "j1" world.store ≡ ok j)
    × MayAct alice "job:read" (some (resource j))
    × MayAct alice "job:manage" (some (resource j))
cancel_job-MayAct_example =
    cancel_job-MayAct engine alice (pos 9) "j1" "why" world refl alice_cancels

alice_reads : get_job engine (some alice) "j1" world ≡ ok queued
unfolding get_job permit get_by_id lookup authorize is_superadmin has_role has_name has_permission
    scan_permissions scope_check owner_check resource is_admin_or_operator
alice_reads = refl

abbrev everything : JobFilter
everything = record {
  tenant_id = "bob";
  job_type = "";
  status = unset;
  resource_type = "";
  resource_id = "";
  limit = pos 10;
  offset = pos 0;
}

abbrev by_alice : JobFilter
by_alice = record everything { tenant_id = "alice" }

alice_lists : list_visible (some alice) everything world ≡ ok (queued ∷ [], pos 1)
unfolding list_visible list_jobs page passes sort_newest is_superadmin has_role has_name int64 ◌+ℤ◌
    ◌-ℤ◌
alice_lists = refl

list_visible-own_example : All (λ (j : Job). j.tenant_id ≡ "alice") (queued ∷ [])
unfolding is_superadmin has_role has_name
list_visible-own_example =
    list_visible-own alice everything world {r = (queued ∷ [], pos 1)} refl
      (λ e. ground (arith, eq_iff "alice" "")) alice_lists

page_of_one : list_jobs by_alice store ≡ ok (queued ∷ [], pos 1)
unfolding list_jobs page passes sort_newest int64 ◌+ℤ◌ ◌-ℤ◌
page_of_one = refl

list_jobs-page_example :
    All (λ j. passes by_alice j ≡ true) (queued ∷ [])
    × IsNewestFirst (queued ∷ [])
    × (pos 0 <ℤ pos 10 → pos 1 ≤ℤ pos 10)
    × (pos 1 ≡ pos (length (keep (passes by_alice) (map (λ e. e.1) store.jobs))))
list_jobs-page_example = list_jobs-page by_alice store {r = (queued ∷ [], pos 1)} page_of_one

fail_all-status_example :
    (j' : Job) × (fail_all ((pos 1, "a", pos 2) ∷ (pos 3, "b", pos 4) ∷ []) queued ≡ ok j')
    × (j'.retry_count ≡ pos 2)
    × (j'.status ≡ retrying)
fail_all-status_example =
    fail_all-status (pos 1, "a", pos 2) ((pos 3, "b", pos 4) ∷ []) queued {c = 0} {m = 3} refl refl
      (omega arith)

refused_unchanged_example :
    ((x : JobError)
      → (cancel_job engine none (pos 1) "j9" "why" world).1 ≡ err x
      → (cancel_job engine none (pos 1) "j9" "why" world).0 ≡ world)
    × ((x : JobError)
        → (retry_job engine none "id" (pos 1) "j9" world).1 ≡ err x
        → (retry_job engine none "id" (pos 1) "j9" world).0 ≡ world)
refused_unchanged_example = refused_unchanged engine none "id" (pos 1) "j9" "why" world

abbrev readings : Readings
readings = record {
  attempt_id = "a1";
  started_at = pos 10;
  finished_at = pos 12;
  marked_at = pos 13;
  sample = 0;
}

some_handler : engine.handlers ≢ []
some_handler h = cc

process_next_job-IsEnded_example :
    let claimed =
      (claim_next_pending (pos 10) "w1" (pos 30) (map (λ h. h.0) engine.handlers) store).1 in
    let after = process_next_job engine (pos 10) readings world in
    ((j : Job)
      → claimed ≡ some j
      → (h : Handler) × (k : Job) × (lookup j.job_type engine.handlers ≡ some h)
        × IsOnly j.id k store.jobs after.store.jobs
        × IsEnded readings j (h j).outcome k
        × IsIdle k)
    × (claimed ≡ none → after ≡ world)
process_next_job-IsEnded_example =
    process_next_job-IsEnded engine (pos 10) readings world store-IsMap (refl, tt) some_handler

canceled_revived_example :
    let s' = (mark_canceled (pos 9) "j1" "why" store).0 in
    ((j1 : Job) × (lookup "j1" s'.jobs ≡ some j1) × (j1.status ≡ canceled))
    × ((j2 : Job) × (lookup "j1" (mark_failed (pos 12) "j1" "late" (some (pos 4)) s').0.jobs
          ≡ some j2)
        × (j2.status ≡ retrying))
    × ((j3 : Job) × (lookup "j1" (mark_succeeded (pos 12) "j1" "late" s').0.jobs ≡ some j3)
        × (j3.status ≡ succeeded))
unfolding lookup is_terminal
canceled_revived_example =
    canceled_revived (pos 9) (pos 12) "j1" "why" "late" (pos 4) store queued {c = 0} {m = 3} refl
      refl refl refl (omega arith) (omega arith)

backoff_bounds_example :
    (pos (4 * second) ≤ℤ calculate_backoff 9 (pos 2))
    × (calculate_backoff 9 (pos 2) ≤ℤ pos (36 * 60 * second))
backoff_bounds_example = backoff_bounds 9 (pos 2) (omega arith)
