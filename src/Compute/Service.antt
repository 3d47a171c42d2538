-- ===== src/Compute/Service.antt =====
-- internal/app/compute/service.go: the operations on an instance that exists. DeleteInstance ignores what
-- the node answers; UpdateSpec sends no record and no event.
use aurora_old.Base.{
  String, ◌==◌, Bool, true, false, none, some, List, [], ◌∷◌, if◌then◌else◌, Result, ok, err, ◌>>=◌,
  ◌>>◌,
}
use Prim.Native.String.{◌++◌}
use aurora_old.Base.Int.{ℤ}
use aurora_old.Identity.Subject.{Subject, has_permission}
use aurora_old.Job.World.{Event}
use aurora_old.Node.Types.{Command, Value, text, int, flag}
use aurora_old.Compute.Instance.{
  Status, running, stopped, status_text, same_status, Instance, resource, ComputeError,
  instance_running, instance_stopped, invalid_power_action, instance_operation_failed,
}
use aurora_old.Compute.Repo.{get_by_id, update_status, update_spec, delete, list_all, list_by_user}
use aurora_old.Compute.Request.{Services, permitted, quota_spec}
use aurora_old.Compute.Create.{Compute, returned, succeeded, published, audited}

-- The lookup and the authorization that every operation begins with.
unfoldable pub loaded :
    Services → Subject → String → String → Compute → Result ComputeError Instance
loaded v sub action id w = do
  i ← get_by_id id w.store
  permitted (v.authorizer (some sub) action (some (resource i)))
  ok i

pub record PowerPlan : Type 0 where
  pub command_type : String
  pub target : Status
  pub force : Bool
  pub event_type : String

-- The switch on the action, with the event that it ends in.
unfoldable pub power_plan : String → Bool → Instance → Result ComputeError PowerPlan
power_plan action force i =
    if action == "start"
    then (if same_status i.status running
        then err instance_running
        else ok record {
          command_type = "start_instance";
          target = running;
          force = force;
          event_type = "instance.started";
        })
    else if action == "stop"
    then (if same_status i.status stopped
        then err instance_stopped
        else ok record {
          command_type = "stop_instance";
          target = stopped;
          force = force;
          event_type = "instance.stopped";
        })
    else if action == "force-stop"
    then ok record {
      command_type = "stop_instance";
      target = stopped;
      force = true;
      event_type = "instance.stopped";
    }
    else if action == "restart"
    then ok record {
      command_type = "restart_instance";
      target = running;
      force = force;
      event_type = "instance.restarted";
    }
    else err invalid_power_action

unfoldable pub guest_command : String → String → Instance → List (String × Value) → Command
guest_command type_name correlation i more = record {
  correlation_id = correlation;
  command_type = type_name;
  payload = ("instance_id", text i.id) ∷ ("name", text i.name) ∷ more;
}

abbrev flag_text : Bool → String
flag_text true = "true"
flag_text false = "false"

unfoldable pub instance_event : String → Subject → Instance → List (String × String) → Event
instance_event type_name sub i payload = record {
  tenant_id = i.user_id;
  event_type = type_name;
  resource_type = "instance";
  resource_id = i.id;
  actor_id = sub.user_id;
  payload = payload;
}

module _ (v : Services) (sub : Subject) (now : ℤ) where
  unfoldable pub power_done :
      String → String → Instance → PowerPlan → Compute → Compute × Result ComputeError Instance
  power_done id action i p w =
      let i' = record i { status = p.target } in
      (
        record w {
          store = (update_status now id p.target i.ipv4_address i.ipv6_address w.store).0;
          audit_logs =
              audited sub ("instance.power." ++ action) now id
                (("action", action) ∷ ("force", flag_text p.force) ∷ []) w.audit_logs;
          events =
              published v
                (instance_event p.event_type sub i'
                  (("name", i.name) ∷ ("status", status_text p.target) ∷ ("action", action) ∷ []))
                w.events;
        },
        ok i',
      )

  abbrev pub with_power :
      String
      → String
      → String
      → Compute
      → Result ComputeError (Instance × PowerPlan)
      → Compute × Result ComputeError Instance
  with_power id action correlation w (err e) = (w, err e)
  with_power id action correlation w (ok (i, p)) =
      if succeeded (
        v.send i.node_id
          (guest_command p.command_type correlation i (("force", flag p.force) ∷ [])))
      then power_done id action i p w
      else (w, err instance_operation_failed)

  abbrev pub planned_power :
      String → String → Bool → Compute → Result ComputeError (Instance × PowerPlan)
  planned_power id action force w = do
    i ← loaded v sub "instance:power" id w
    p ← power_plan action force i
    ok (i, p)

  -- `PowerAction`
  unfoldable pub power_action :
      String → String → Bool → String → Compute → Compute × Result ComputeError Instance
  power_action id action force correlation w =
      with_power id action correlation w (planned_power id action force w)

  unfoldable pub forgotten : String → Bool → Instance → Compute → Compute
  forgotten id force i w = record w {
    quotas =
        returned v.quotas now i.user_id (quota_spec i.cpu_cores i.memory_bytes i.storage_bytes)
          w.quotas;
    audit_logs =
        audited sub "instance.deleted" now id
          (("name", i.name) ∷ ("nodeId", i.node_id) ∷ ("force", flag_text force) ∷ []) w.audit_logs;
    events = published v (instance_event "instance.deleted" sub i (("name", i.name) ∷ [])) w.events;
  }

  abbrev pub delete_loaded :
      String
      → Bool
      → Compute
      → Result ComputeError Instance
      → Compute × Result ComputeError (Unit {0})
  delete_loaded id force w (err e) = (w, err e)
  delete_loaded id force w (ok i) =
      let (s, r) = delete id w.store in
      elim r [
        | err e ↦ (record w { store = s }, err e)
        | ok _ ↦ (forgotten id force i (record w { store = s }), ok tt)
      ]

  -- `DeleteInstance`; the command is sent and its answer not read.
  unfoldable pub delete_instance :
      String → Bool → Compute → Compute × Result ComputeError (Unit {0})
  delete_instance id force w = delete_loaded id force w (loaded v sub "instance:delete" id w)

  abbrev pub resize_loaded :
      String
      → ℤ
      → ℤ
      → ℤ
      → String
      → Compute
      → Result ComputeError Instance
      → Compute × Result ComputeError Instance
  resize_loaded id cpu memory storage correlation w (err e) = (w, err e)
  resize_loaded id cpu memory storage correlation w (ok i) =
      if succeeded (
        v.send i.node_id (
          guest_command "update_instance_spec" correlation i (
            ("cpu_cores", int cpu)
            ∷ ("memory_bytes", int memory)
            ∷ ("storage_bytes", int storage)
            ∷ [])))
      then (
        record w { store = (update_spec now id cpu memory storage w.store).0 },
        ok (record i { cpu_cores = cpu; memory_bytes = memory; storage_bytes = storage }),
      )
      else (w, err instance_operation_failed)

  -- `UpdateSpec`
  unfoldable pub resize :
      String → ℤ → ℤ → ℤ → String → Compute → Compute × Result ComputeError Instance
  resize id cpu memory storage correlation w =
      resize_loaded id cpu memory storage correlation w (loaded v sub "instance:update" id w)

unfoldable pub get_instance : Services → Subject → String → Compute → Result ComputeError Instance
get_instance v sub id w = loaded v sub "instance:read" id w

unfoldable pub list_instances : Services → Subject → Compute → Result ComputeError (List Instance)
list_instances v sub w =
    permitted (v.authorizer (some sub) "instance:read" none)
    >> ok (if has_permission sub "*" then list_all w.store else list_by_user sub.user_id w.store)
