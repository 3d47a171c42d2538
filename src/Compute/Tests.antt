-- ===== src/Compute/Tests.antt =====
-- One node, one plan, and a caller who creates instances on it.
use aurora_old.Base.{◌^◌, Bool, true, false, none, some, List, [], ◌∷◌, ok, ◌≡◌, ◌⊎◌, refl, arith}
use aurora_old.Base.Int.{ℤ, pos, ◌+ℤ◌, int64, quot}
use aurora_old.Base.Assoc.{lookup, insert, erase}
use aurora_old.Identity.Subject.{Subject}
use aurora_old.Billing.Quota.{MetricType, instance_count, Plan}
use aurora_old.Billing.Repo.{Catalog, QuotaEntry}
use aurora_old.Billing.Reserve.{usage, more, less}
use aurora_old.Billing.Rollback.{Room}
use aurora_old.Node.Types.{Command, Node, online, CommandResult, is_schedulable}
use aurora_old.Compute.Instance.{container, Instance, running, stopped}
use aurora_old.Compute.Repo.{new_instance_store, get_by_id, get_by_name}
use aurora_old.Compute.Request.{
  Services, CreateRequest, checked_request, with_defaults, instance_type_of, prepared, quota_spec,
}
use aurora_old.Compute.Create.{Compute, create_instance}
use aurora_old.Compute.Service.{delete_instance}
use aurora_old.Compute.Guest.{
  Paths, read_guest_file, list_guest_files, list_backups, list_snapshots,
}
use aurora_old.Compute.Writes.{write_call, run_guests}
use aurora_old.Compute.Calls.{
  Call, create_call, delete_call, run_all, empty_compute, get_by_name-calls,
}
use aurora_old.Compute.Accounts.{spec_of, create_instance-usage}
use aurora_old.Compute.Outcome.{at_time}
use aurora_old.Compute.Deletion.{create_instance-stored, delete_instance-failed}
use aurora_old.Compute.Unchanged.{read_guest_file-calls}
use aurora_old.Compute.Create.{
  reserved, after_command, command_done, command_failed, final_status, returned,
}
use aurora_old.Billing.Engine.{
  reserve, get_tenant_plan, reserve_all, claim, reserve_vcpu, reserve_memory, reserve_storage,
  release, undo,
}
use aurora_old.Billing.Repo.{
  subscription_by_tenant, list_plans, reserve_quota, over_limit, with_limit, use_quota, find_quota,
  put_quota, same_key, release_quota, give_back,
}
use aurora_old.Compute.Request.{target_node, resolved_image, final_config, new_instance}
use aurora_old.Compute.Repo.{create, update_status, with_status, delete}
use aurora_old.Base.Int.{◌-ℤ◌}
use aurora_old.Compute.Service.{loaded, forgotten}
use aurora_old.Compute.Instance.{resource}

abbrev node : Node
node = record {
  id = "n1";
  location_id = "";
  name = "n1";
  fqdn = "n1.local";
  status = online;
  cert_fingerprint = "";
  cpu_cores = pos 8;
  memory_bytes = pos (2 ^ 34);
  storage_bytes = pos (2 ^ 40);
  architecture = none;
  maintenance_mode = false;
  drain_mode = false;
  unhealthy_reason = "";
  last_heartbeat_at = none;
  last_state_change_at = none;
  created_at = pos 0;
  updated_at = pos 0;
}

abbrev plan : Plan
plan = record {
  id = "p";
  slug = "p";
  maximum_instances = pos 5;
  maximum_vcpu = pos 8;
  maximum_memory_mb = pos 8192;
  maximum_storage_mb = pos 102400;
  active = true;
}

abbrev catalog : Catalog
catalog = record { plans = ("p", plan) ∷ []; subscriptions = []; tenant_subs = [] }

abbrev answer : Bool → CommandResult
answer b = record { success = b; error_message = ""; payload = ("status", "running") ∷ [] }

-- A service whose agents succeed or fail at every command.
abbrev services : Bool → Services
services b = record {
  authorizer = λ s a r. none;
  quotas = some catalog;
  nodes = node ∷ [];
  node_by_id = λ id. none;
  select_node = none;
  templates = none;
  send = λ id c. some (answer b);
  answered_at = λ now id c. now +ℤ pos 5;
  publishes = false;
  trim_lower = λ s. s;
  to_lower = λ s. s;
  is_name = λ s. true;
  show_int = λ n. "0";
}

abbrev ann : Subject
ann = record {
  type_name = "user";
  id = "ann";
  user_id = "ann";
  username = "ann";
  email = "";
  roles = [];
  permissions = [];
  scopes = [];
}

abbrev request : CreateRequest
request = record {
  name = "web";
  type_name = "";
  cpu_cores = pos 2;
  memory_bytes = pos (2 ^ 30);
  storage_bytes = pos (2 ^ 30);
  image = "debian";
  template_id = "";
  template_slug = "";
  cloud_init = none;
  node_id = "";
  config = [];
  start_after_create = true;
}

-- The caller already has one instance.
abbrev in_use : MetricType → ℤ → QuotaEntry
in_use k n = record {
  tenant = "ann";
  metric = k;
  quota = record {
    tenant_id = "ann";
    metric = k;
    limit = pos 0;
    current_usage = n;
    reset_period = "none";
    updated_at = pos 0;
  };
}

abbrev world : Compute
world = record empty_compute { quotas = in_use instance_count (pos 3) ∷ [] }

web_checked : (b : Bool) → checked_request (services b) ann request ≡ ok (request, container)
unfolding checked_request with_defaults instance_type_of
web_checked b = refl

room : Room "ann" (spec_of request) world.quotas
unfolding usage find_quota same_key quota_spec quot ◌+ℤ◌
room k = ground arith

create_instance-usage_example :
    usage "ann" instance_count
      (create_instance (services true) ann (pos 0) request "i1" "c1" world).0.quotas
    ≡ pos 4
unfolding create_instance checked_request with_defaults instance_type_of reserved reserve
    get_tenant_plan subscription_by_tenant lookup list_plans reserve_all claim reserve_quota
    over_limit with_limit use_quota find_quota put_quota same_key int64 ◌+ℤ◌ reserve_vcpu
    reserve_memory reserve_storage quota_spec quot prepared target_node is_schedulable
    resolved_image final_config new_instance create insert after_command command_done command_failed
    final_status update_status with_status usage more less returned release undo release_quota
    give_back ◌-ℤ◌ delete_instance loaded get_by_id resource delete forgotten erase
    new_instance_store
create_instance-usage_example =
    create_instance-usage (services true) ann (pos 0) request request container "i1" "c1" world
      catalog "ann" instance_count refl (web_checked true) room

abbrev web : Instance
web = record {
  id = "i1";
  user_id = "ann";
  node_id = "n1";
  name = "web";
  instance_type = container;
  status = running;
  cpu_cores = pos 2;
  memory_bytes = pos (2 ^ 30);
  storage_bytes = pos (2 ^ 30);
  image = "debian";
  ipv4_address = "";
  ipv6_address = "";
  config = [];
  created_at = pos 0;
  updated_at = pos 0;
}

create_instance-stored_example :
    ((c : Command) × (get_by_id "i1"
          (create_instance (services true) ann (pos 0) request "i1" "c1" world).0.store
        ≡ ok (at_time (pos 0 +ℤ pos 5) web)))
    × (web.id ≡ "i1")
    × (web.user_id ≡ ann.user_id)
    × (web.name ≡ request.name)
    × ((web.status ≡ running) ⊎ (web.status ≡ stopped))
unfolding create_instance checked_request with_defaults instance_type_of reserved reserve
    get_tenant_plan subscription_by_tenant lookup list_plans reserve_all claim reserve_quota
    over_limit with_limit use_quota find_quota put_quota same_key int64 ◌+ℤ◌ reserve_vcpu
    reserve_memory reserve_storage quota_spec quot prepared target_node is_schedulable
    resolved_image final_config new_instance create insert after_command command_done command_failed
    final_status update_status with_status usage more less returned release undo release_quota
    give_back ◌-ℤ◌ delete_instance loaded get_by_id resource delete forgotten erase
    new_instance_store
create_instance-stored_example =
    create_instance-stored (services true) ann (pos 0) request "i1" "c1" world web refl

-- One instance is left of three.
delete_instance-failed_example :
    usage "ann" instance_count
      (delete_instance
        (services false)
        ann
        (pos 1)
        "i1"
        false
        (create_instance (services false) ann (pos 0) request "i1" "c1" world).0).0.quotas
    ≡ pos 2
unfolding create_instance checked_request with_defaults instance_type_of reserved reserve
    get_tenant_plan subscription_by_tenant lookup list_plans reserve_all claim reserve_quota
    over_limit with_limit use_quota find_quota put_quota same_key int64 ◌+ℤ◌ reserve_vcpu
    reserve_memory reserve_storage quota_spec quot prepared target_node is_schedulable
    resolved_image final_config new_instance create insert after_command command_done command_failed
    final_status update_status with_status usage more less returned release undo release_quota
    give_back ◌-ℤ◌ delete_instance loaded get_by_id resource delete forgotten erase
    new_instance_store
delete_instance-failed_example =
    delete_instance-failed (services false) ann ann (pos 0) (pos 1) request request container "i1"
      "c1" world false catalog "ann" instance_count refl (web_checked false) room refl refl

abbrev calls : List Call
calls =
    create_call ann (pos 0) request "i1" "c1"
    ∷ delete_call ann (pos 1) "i1" false
    ∷ create_call ann (pos 2) request "i2" "c2"
    ∷ []

abbrev web2 : Instance
web2 = record web { id = "i2"; created_at = pos 2; updated_at = pos 2 }

get_by_name-calls_example :
    let s = (run_all (services true) calls empty_compute).store in
    (get_by_id "i2" s ≡ ok web2 → (web2.id ≡ "i2") × (get_by_name "web" s ≡ ok web2))
    × (get_by_name "i2" s ≡ ok web2 → (web2.name ≡ "i2") × (get_by_id "i2" s ≡ ok web2))
unfolding create_instance checked_request with_defaults instance_type_of reserved reserve
    get_tenant_plan subscription_by_tenant lookup list_plans reserve_all claim reserve_quota
    over_limit with_limit use_quota find_quota put_quota same_key int64 ◌+ℤ◌ reserve_vcpu
    reserve_memory reserve_storage quota_spec quot prepared target_node is_schedulable
    resolved_image final_config new_instance create insert after_command command_done command_failed
    final_status update_status with_status usage more less returned release undo release_quota
    give_back ◌-ℤ◌ delete_instance loaded get_by_id resource delete forgotten erase
    new_instance_store
get_by_name-calls_example =
    get_by_name-calls (services true) calls "i2" web2 (refl, (tt, (refl, tt)))

abbrev paths : Paths
paths = record {
  trim = λ s. s;
  is_rooted = λ s. true;
  clean = λ s. s;
  has_dots = λ s. false;
  unix_text = λ n. "0";
}

abbrev guests : Compute
guests = (create_instance (services true) ann (pos 0) request "i1" "c1" world).0

read_guest_file-calls_example :
    let w =
      run_guests
        (services true)
        paths
        ((ann, pos 5, write_call "i1" "/etc/motd" (pos 3)) ∷ [])
        guests in
    ((read_guest_file (services true) paths ann (pos 6) "i1" "/etc/motd" w).1
      ≡ (read_guest_file (services true) paths ann (pos 6) "i1" "/etc/motd" guests).1)
    × ((list_guest_files (services true) paths ann (pos 6) "i1" "/etc/motd" w).1
        ≡ (list_guest_files (services true) paths ann (pos 6) "i1" "/etc/motd" guests).1)
    × (list_backups (services true) paths ann (pos 6) "i1" w
        ≡ list_backups (services true) paths ann (pos 6) "i1" guests)
    × (list_snapshots (services true) paths ann (pos 6) "i1" w
        ≡ list_snapshots (services true) paths ann (pos 6) "i1" guests)
read_guest_file-calls_example =
    read_guest_file-calls (services true) paths
      ((ann, pos 5, write_call "i1" "/etc/motd" (pos 3)) ∷ []) guests ann (pos 6) "i1" "/etc/motd"
