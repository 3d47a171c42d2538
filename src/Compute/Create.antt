-- ===== src/Compute/Create.antt =====
-- internal/app/compute/service.go: CreateInstance over the quota engine and the instance repository. A
-- record that is sent to the audit trail, and an event, is kept, the last one first; an audit
-- record without its status code.
use aurora_old.Base.{
  ◌^◌, String, ◌==◌, Bool, false, Option, none, some, List, [], ◌∷◌, if◌then◌else◌, Result, ok, err,
}
use aurora_old.Base.Int.{ℤ, quot}
use aurora_old.Base.Assoc.{lookup}
use aurora_old.Identity.Subject.{Subject}
use aurora_old.Job.World.{AuditLog, Event}
use aurora_old.Billing.Quota.{BillingError, ResourceSpec}
use aurora_old.Billing.Repo.{Quotas, Catalog}
use aurora_old.Billing.Engine.{reserve, release}
use aurora_old.Node.Types.{Command, CommandResult, text, int, flag, object}
use aurora_old.Compute.Instance.{
  InstanceType, type_text, Status, running, stopped, error, status_text, Instance, ComputeError,
  over_quota, instance_operation_failed,
}
use aurora_old.Compute.Repo.{InstanceStore, create, update_status}
use aurora_old.Compute.Request.{Services, CreateRequest, checked_request, prepared, quota_spec}

pub record Compute : Type 0 where
  pub quotas : Quotas
  pub store : InstanceStore
  pub audit_logs : List AuditLog
  pub events : List Event

-- The engine's answer, and that of a service without one.
unfoldable pub reserved :
    Option Catalog → ℤ → String → ResourceSpec → Quotas → Quotas × Result BillingError (Unit {0})
reserved none now tenant spec m = (m, ok tt)
reserved (some c) now tenant spec m = reserve now tenant spec c m

unfoldable pub returned : Option Catalog → ℤ → String → ResourceSpec → Quotas → Quotas
returned none now tenant spec m = m
returned (some c) now tenant spec m = release now tenant spec m

-- `if err != nil || !res.Success`
abbrev pub succeeded : Option CommandResult → Bool
succeeded none = false
succeeded (some r) = r.success

abbrev pub text_at : String → Option CommandResult → String
text_at key none = ""
text_at key (some r) = elim (lookup key r.payload) [ none ↦ "" | some t ↦ t ]

unfoldable pub create_command : CreateRequest → Instance → String → Command
create_command q i correlation = record {
  correlation_id = correlation;
  command_type = "create_instance";
  payload =
      ("instance_id", text i.id)
      ∷ ("name", text i.name)
      ∷ ("type", text (type_text i.instance_type))
      ∷ ("cpu_cores", int i.cpu_cores)
      ∷ ("memory_bytes", int i.memory_bytes)
      ∷ ("storage_bytes", int i.storage_bytes)
      ∷ ("image", text i.image)
      ∷ ("config", object i.config)
      ∷ ("start_after_create", flag q.start_after_create)
      ∷ [];
}

-- A guest that is not reported running is taken to run where that was asked for.
unfoldable pub final_status : CreateRequest → Option CommandResult → Status
final_status q res =
    if text_at "status" res == "running"
    then running
    else if q.start_after_create
    then running
    else stopped

abbrev pub published : Services → Event → List Event → List Event
published v e es = if v.publishes then e ∷ es else es

unfoldable pub created_event : Services → Instance → Event
created_event v i = record {
  tenant_id = i.user_id;
  event_type = "instance.created";
  resource_type = "instance";
  resource_id = i.id;
  actor_id = i.user_id;
  payload =
      ("name", i.name)
      ∷ ("nodeId", i.node_id)
      ∷ ("type", type_text i.instance_type)
      ∷ ("status", status_text i.status)
      ∷ ("cpuCores", v.show_int i.cpu_cores)
      ∷ ("memoryMb", v.show_int (quot i.memory_bytes (2 ^ 20)))
      ∷ ("storageGb", v.show_int (quot i.storage_bytes (2 ^ 30)))
      ∷ [];
}

unfoldable pub audited :
    Subject → String → ℤ → String → List (String × String) → List AuditLog → List AuditLog
audited sub action now id details logs =
    record {
      actor_id = sub.user_id;
      action = action;
      resource_type = "instance";
      resource_id = id;
      details = details;
      created_at = now;
    }
    ∷ logs

-- `now` is the clock after the node's answer.
module _ (v : Services) (sub : Subject) (now : ℤ) where
  unfoldable pub command_failed :
      CreateRequest → Instance → Compute → Compute × Result ComputeError Instance
  command_failed q i w = (
    record w {
      quotas =
          returned v.quotas now sub.user_id (quota_spec q.cpu_cores q.memory_bytes q.storage_bytes)
            w.quotas;
      store = (update_status now i.id error "" "" w.store).0;
    },
    err instance_operation_failed,
  )

  unfoldable pub command_done :
      CreateRequest
      → Instance
      → Option CommandResult
      → Compute
      → Compute × Result ComputeError Instance
  command_done q i res w =
      let status = final_status q res in
      let ipv4 = text_at "ipv4Address" res in
      let ipv6 = text_at "ipv6Address" res in
      let i' = record i { status = status; ipv4_address = ipv4; ipv6_address = ipv6 } in
      (
        record w {
          store = (update_status now i.id status ipv4 ipv6 w.store).0;
          audit_logs =
              audited sub "instance.created" now i.id
                (("name", i.name)
                  ∷ ("nodeId", i.node_id)
                  ∷ ("type", type_text i.instance_type)
                  ∷ [])
                w.audit_logs;
          events = published v (created_event v i') w.events;
        },
        ok i',
      )

  unfoldable pub after_command :
      CreateRequest
      → Instance
      → Option CommandResult
      → Compute
      → Compute × Result ComputeError Instance
  after_command q i res w = if succeeded res then command_done q i res w else command_failed q i w

module _ (v : Services) (sub : Subject) (now : ℤ) where
  abbrev pub after_create :
      CreateRequest
      → Instance
      → String
      → Compute
      → InstanceStore × Result ComputeError (Unit {0})
      → Compute × Result ComputeError Instance
  after_create q i correlation w (s, err e) = (record w { store = s }, err e)
  after_create q i correlation w (s, ok _) =
      let c = create_command q i correlation in
      after_command v sub (v.answered_at now i.node_id c) q i (v.send i.node_id c)
        (record w { store = s })

  abbrev pub with_prepared :
      CreateRequest
      → String
      → Compute
      → Result ComputeError Instance
      → Compute × Result ComputeError Instance
  with_prepared q correlation w (err e) = (w, err e)
  with_prepared q correlation w (ok i) = after_create q i correlation w (create i w.store)

  abbrev pub after_reserve :
      CreateRequest
      → InstanceType
      → String
      → String
      → Compute
      → Quotas × Result BillingError (Unit {0})
      → Compute × Result ComputeError Instance
  after_reserve q t new_id correlation w (m, err e) = (record w { quotas = m }, err (over_quota e))
  after_reserve q t new_id correlation w (m, ok _) =
      with_prepared q correlation (record w { quotas = m }) (prepared v sub now new_id w.store q t)

  abbrev pub with_checked :
      String
      → String
      → Compute
      → Result ComputeError (CreateRequest × InstanceType)
      → Compute × Result ComputeError Instance
  with_checked new_id correlation w (err e) = (w, err e)
  with_checked new_id correlation w (ok (q, t)) = after_reserve q t new_id correlation w (
      reserved v.quotas now sub.user_id (quota_spec q.cpu_cores q.memory_bytes q.storage_bytes)
        w.quotas)

  -- `CreateInstance`; the two texts are the fresh identifiers of the call.
  unfoldable pub create_instance :
      CreateRequest → String → String → Compute → Compute × Result ComputeError Instance
  create_instance q new_id correlation w =
      with_checked new_id correlation w (checked_request v sub q)
