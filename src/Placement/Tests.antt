-- ===== src/Placement/Tests.antt =====
-- Two nodes, of which one is drained; floating-point numbers are stood in for by integers.
use mathlib.Core.List.{Memᴰ}
use aurora_old.Base.{
  ◌^◌, String, ◌==◌, Bool, true, false, none, List, [], ◌∷◌, All, ok, err, ◌≡◌, refl,
}
use aurora_old.Base.Int.{ℤ, pos, ◌+ℤ◌, ◌-ℤ◌, ltb_ℤ, int64}
use aurora_old.Base.Assoc.{lookup}
use aurora_old.Node.Types.{Node, online, is_schedulable}
use aurora_old.Compute.Instance.{container}
use aurora_old.Placement.Scheduler.{
  Floats, Fleet, PlacementRequest, select_node, evaluate_candidates, judged, lacks_kvm, lacks_cpu,
  cpu_limit, memory_limit, storage_limit, no_eligible_nodes,
}
use aurora_old.Placement.Fits.{Fits, select_node-Fits}

abbrev whole : Floats
whole = record {
  Num = ℤ;
  of_int = λ z. z;
  to_int = λ z. z;
  times = λ a b. a;
  divided = λ a b. a;
  plus = λ a b. a +ℤ b;
  minus = λ a b. a -ℤ b;
  less = ltb_ℤ;
}

abbrev fleet : Fleet whole
fleet = record {
  cpu_ratio = λ n. pos 1;
  memory_ratio = λ n. pos 1;
  kvm_supported = λ n. none;
  to_lower = λ s. s;
  equal_fold = λ s t. s == t;
}

abbrev host : String → Bool → Node
host id drained = record {
  id = id;
  location_id = "";
  name = id;
  fqdn = id;
  status = online;
  cert_fingerprint = "";
  cpu_cores = pos 8;
  memory_bytes = pos (2 ^ 34);
  storage_bytes = pos (2 ^ 40);
  architecture = none;
  maintenance_mode = false;
  drain_mode = drained;
  unhealthy_reason = "";
  last_heartbeat_at = none;
  last_state_change_at = none;
  created_at = pos 0;
  updated_at = pos 0;
}

abbrev request : PlacementRequest
request = record {
  instance_type = container;
  cpu_cores = pos 2;
  memory_bytes = pos (2 ^ 30);
  storage_bytes = pos (2 ^ 30);
  architecture = "";
  location_id = "";
  preferred_node_id = "";
  exclude_node_ids = [];
}

abbrev hosts : List Node
hosts = host "n1" true ∷ host "n2" false ∷ []

select_node-Fits_example :
    ((n : Node)
      → select_node whole fleet (λ l. l) request hosts [] ≡ ok n
      → Memᴰ n hosts × Fits whole fleet request [] n)
    × (select_node whole fleet (λ l. l) request hosts [] ≡ err no_eligible_nodes
        → All (λ n. ¬ (Fits whole fleet request [] n)) hosts)
select_node-Fits_example =
    select_node-Fits whole fleet request [] (λ l. l) hosts ((λ P l h. h), (λ l e. e))

select_node_second : select_node whole fleet (λ l. l) request hosts [] ≡ ok (host "n2" false)
unfolding select_node evaluate_candidates judged is_schedulable lacks_kvm lacks_cpu ◌-ℤ◌ cpu_limit
    lookup int64 memory_limit storage_limit
select_node_second = refl
