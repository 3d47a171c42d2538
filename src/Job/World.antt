-- ===== src/Job/World.antt =====
-- internal/app/job/engine.go: the engine, its handlers and what it sends. The event publisher, the
-- audit log and the authorizer may each be nil. The events and the audit records that are sent are
-- kept, the last one first.
use aurora_old.Base.{◌*◌, String, Bool, true, false, Option, List, [], ◌∷◌, if◌then◌else◌}
use aurora_old.Base.Int.{ℤ, pos, leb_ℤ}
use aurora_old.Base.Assoc.{Assoc, insert}
use aurora_old.Identity.Subject.{IdentityError, Subject, Resource}
use aurora_old.Job.Types.{Job}
use aurora_old.Job.Store.{JobStore}
use aurora_old.Job.Backoff.{second}

abbrev pub Authorizer : Type 0
Authorizer = Option Subject → String → Option Resource → Option IdentityError

-- What a handler did: its progress reports, and then how it ended.
pub data Outcome : Type 0 where
  returned : String → Outcome
  failed_with panicked : String → Outcome

pub record HandlerRun : Type 0 where
  pub progress : List ℤ
  pub outcome : Outcome

abbrev pub Handler : Type 0
Handler = Job → HandlerRun

pub record Event : Type 0 where
  pub tenant_id : String
  pub event_type : String
  pub resource_type : String
  pub resource_id : String
  pub actor_id : String
  pub payload : List (String × String)

pub record AuditLog : Type 0 where
  pub actor_id : String
  pub action : String
  pub resource_type : String
  pub resource_id : String
  pub details : List (String × String)
  pub created_at : ℤ

pub record Engine : Type 0 where
  pub authorizer : Option Authorizer
  pub publishes : Bool
  pub audits : Bool
  pub has_leases : Bool
  pub worker_id : String
  pub worker_count : ℤ
  pub lease_duration : ℤ
  pub handlers : Assoc Handler

pub record World : Type 0 where
  pub store : JobStore
  pub events : List Event
  pub audit_logs : List AuditLog

-- `NewEngine`, with the worker's name.
unfoldable pub new_engine : Option Authorizer → Bool → Bool → ℤ → String → Engine
new_engine authorizer audits has_leases worker_count worker_id = record {
  authorizer = authorizer;
  publishes = false;
  audits = audits;
  has_leases = has_leases;
  worker_id = worker_id;
  worker_count = if leb_ℤ worker_count (pos 0) then pos 4 else worker_count;
  lease_duration = pos (30 * second);
  handlers = [];
}

unfoldable pub set_event_publisher : Engine → Engine
set_event_publisher e = record e { publishes = true }

unfoldable pub register_handler : String → Handler → Engine → Engine
register_handler job_type h e = record e { handlers = insert job_type h e.handlers }

unfoldable pub publish : Engine → Event → World → World
publish e ev w = if e.publishes then record w { events = ev ∷ w.events } else w

unfoldable pub audit : Engine → AuditLog → World → World
audit e a w = if e.audits then record w { audit_logs = a ∷ w.audit_logs } else w

abbrev pub with_store : World → JobStore → World
with_store w s = record w { store = s }

abbrev pub job_event : Job → String → List (String × String) → Event
job_event j event_type payload = record {
  tenant_id = j.tenant_id;
  event_type = event_type;
  resource_type = "job";
  resource_id = j.id;
  actor_id = "";
  payload = payload;
}
