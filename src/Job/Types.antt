-- ===== src/Job/Types.antt =====
-- internal/domain/job/job.go: the job, its states, attempts and worker leases.
use aurora_old.Base.{String, Bool, ◌||◌, Option, ℕ, eqb}
use aurora_old.Base.Int.{ℤ}
use aurora_old.Identity.Subject.{IdentityError, Resource}

-- The last two are a denied authorization and a slice that panics.
pub data JobError : Type 0 where
  not_found already_claimed cannot_cancel cannot_retry invalid_state : JobError
  max_retries_exceeded slice_panic : JobError
  denied : IdentityError → JobError

-- `unset` is the empty string, which `Create` replaces.
pub data Status : Type 0 where
  unset pending running retrying succeeded failed canceled : Status

abbrev pub status_code : Status → ℕ
status_code unset = 0
status_code pending = 1
status_code running = 2
status_code retrying = 3
status_code succeeded = 4
status_code failed = 5
status_code canceled = 6

abbrev pub status_is : Status → Status → Bool
status_is s t = eqb (status_code s) (status_code t)

unfoldable pub is_terminal : Status → Bool
is_terminal s = status_is s succeeded || status_is s failed || status_is s canceled

pub record Job : Type 0 where
  pub id : String
  pub tenant_id : String
  pub job_type : String
  pub resource_type : String
  pub resource_id : String
  pub status : Status
  pub payload : String
  pub result : String
  pub error : String
  pub retry_count : ℤ
  pub max_retries : ℤ
  pub next_retry_at : Option ℤ
  pub locked_by_worker : String
  pub locked_until : Option ℤ
  pub created_at : ℤ
  pub started_at : Option ℤ
  pub completed_at : Option ℤ
  pub progress_percent : ℤ

-- `Job.Resource`
unfoldable pub resource : Job → Resource
resource j = record { type_name = "job"; id = j.id; owner_id = j.tenant_id; location_id = "" }

pub record JobAttempt : Type 0 where
  pub id : String
  pub job_id : String
  pub attempt_number : ℤ
  pub worker_id : String
  pub error : String
  pub started_at : ℤ
  pub finished_at : Option ℤ

pub record WorkerLease : Type 0 where
  pub worker_id : String
  pub hostname : String
  pub pid : ℤ
  pub status : String
  pub heartbeat_at : ℤ
  pub expires_at : ℤ
  pub created_at : ℤ

pub record JobFilter : Type 0 where
  pub tenant_id : String
  pub job_type : String
  pub status : Status
  pub resource_type : String
  pub resource_id : String
  pub limit : ℤ
  pub offset : ℤ
