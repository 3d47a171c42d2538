-- ===== src/Placement/Scheduler.antt =====
-- internal/app/scheduler/scheduler.go: EvaluateCandidates and SelectNode. Floating-point numbers and
-- `sort.Slice` by descending score are arguments, as are the features of a node that are floating or
-- capabilities. The texts of the reasons are constructors; the free capacities that a candidate
-- reports are left out.
use aurora_old.Base.{
  ◌*◌, ◌^◌, String, ◌==◌, Bool, false, not, ◌&&◌, ◌||◌, Option, none, some, List, [], ◌∷◌, map,
  keep, if◌then◌else◌, Result, ok, err, is_ok, ◌>>◌, fail_if,
}
use aurora_old.Base.Int.{ℤ, pos, ◌+ℤ◌, ◌-ℤ◌, ltb_ℤ, leb_ℤ, int64}
use aurora_old.Base.Assoc.{Assoc, lookup, insert}
use aurora_old.Node.Types.{Node, is_schedulable}
use aurora_old.Compute.Instance.{
  InstanceType, container, virtual_machine, Instance, pending, deleted, same_status,
}

pub record Floats : Type 1 where
  pub Num : Type 0
  pub of_int : ℤ → Num
  pub to_int : Num → ℤ
  pub times : Num → Num → Num
  pub divided : Num → Num → Num
  pub plus : Num → Num → Num
  pub minus : Num → Num → Num
  pub less : Num → Num → Bool

-- `placement.Request`; the required features and the name are never read.
pub record PlacementRequest : Type 0 where
  pub instance_type : InstanceType
  pub cpu_cores : ℤ
  pub memory_bytes : ℤ
  pub storage_bytes : ℤ
  pub architecture : String
  pub location_id : String
  pub preferred_node_id : String
  pub exclude_node_ids : List String

pub record Allocation : Type 0 where
  pub cpu_cores : ℤ
  pub memory_bytes : ℤ
  pub storage_bytes : ℤ
  pub count : ℤ

abbrev pub nothing : Allocation
nothing = record { cpu_cores = pos 0; memory_bytes = pos 0; storage_bytes = pos 0; count = pos 0 }

-- The zero value of a missing key.
abbrev pub or_nothing : Option Allocation → Allocation
or_nothing none = nothing
or_nothing (some a) = a

abbrev pub allocation_of : String → Assoc Allocation → Allocation
allocation_of id m = or_nothing (lookup id m)

unfoldable pub grown : Instance → Allocation → Allocation
grown i a = record {
  cpu_cores = int64 (a.cpu_cores +ℤ i.cpu_cores);
  memory_bytes = int64 (a.memory_bytes +ℤ i.memory_bytes);
  storage_bytes = int64 (a.storage_bytes +ℤ i.storage_bytes);
  count = int64 (a.count +ℤ pos 1);
}

unfoldable pub is_counted : Instance → Bool
is_counted i = not (same_status i.status deleted || same_status i.status pending)

-- The index of the instances by node.
abbrev pub node_allocations : List Instance → Assoc Allocation → Assoc Allocation
node_allocations [] m = m
node_allocations (i ∷ rest) m =
    node_allocations rest
      (if is_counted i then insert i.node_id (grown i (allocation_of i.node_id m)) m else m)

pub data Reason : Type 0 where
  excluded not_schedulable location_mismatch architecture_mismatch no_kvm : Reason
  insufficient_cpu insufficient_memory insufficient_storage : Reason

pub data PlacementError : Type 0 where
  no_eligible_nodes : PlacementError

abbrev pub is_listed : String → List String → Bool
is_listed id [] = false
is_listed id (x ∷ xs) = x == id || is_listed id xs

abbrev or_fallback : ℤ → ℤ → ℤ
or_fallback d n = if leb_ℤ n (pos 0) then d else n

module _ (f : Floats) where
  -- What a node has that is not in its record, and `strings.ToLower` and `strings.EqualFold`.
  pub record Fleet : Type 0 where
    pub cpu_ratio : Node → f.Num
    pub memory_ratio : Node → f.Num
    pub kvm_supported : Node → Option Bool
    pub to_lower : String → String
    pub equal_fold : String → String → Bool

  pub record Candidate : Type 0 where
    pub node : Node
    pub verdict : Result Reason f.Num

  abbrev positive_or : f.Num → f.Num → f.Num
  positive_or d x = if not (f.less (f.of_int (pos 0)) x) then d else x

  module _ (fleet : Fleet) where
    unfoldable pub cpu_limit : Node → f.Num
    cpu_limit n =
        positive_or (f.of_int (pos 128))
          (f.times (f.of_int n.cpu_cores) (positive_or (f.of_int (pos 1)) (fleet.cpu_ratio n)))

    unfoldable pub memory_limit : Node → ℤ
    memory_limit n = or_fallback (pos (512 * 2 ^ 30)) (
        f.to_int (
          f.times (f.of_int n.memory_bytes)
            (positive_or (f.of_int (pos 1)) (fleet.memory_ratio n))))

    unfoldable pub storage_limit : Node → ℤ
    storage_limit n = or_fallback (pos (2000 * 2 ^ 30)) n.storage_bytes

    unfoldable pub architecture_of : Node → String
    architecture_of n = elim n.architecture [
      | none ↦ "x86_64"
      | some a ↦ if a == "" then "x86_64" else fleet.to_lower a
    ]

    unfoldable pub lacks_kvm : PlacementRequest → Node → Bool
    lacks_kvm q n = elim q.instance_type [
      | container ↦ false
      | virtual_machine ↦ elim (fleet.kvm_supported n) [ none ↦ false | some b ↦ not b ]
    ]

    abbrev half : f.Num
    half = f.divided (f.of_int (pos 1)) (f.of_int (pos 2))

    unfoldable pub score : PlacementRequest → Allocation → Node → f.Num
    score q a n =
        let one = f.of_int (pos 1) in
        let cpu = f.divided (f.of_int (int64 (a.cpu_cores +ℤ q.cpu_cores))) (cpu_limit n) in
        let memory =
          f.divided (f.of_int (int64 (a.memory_bytes +ℤ q.memory_bytes)))
            (f.of_int (memory_limit n)) in
        let balance =
          f.times (f.plus (f.times (f.minus one cpu) half) (f.times (f.minus one memory) half))
            (f.of_int (pos 100)) in
        if q.preferred_node_id == n.id then f.plus balance (f.of_int (pos 15)) else balance

    unfoldable pub lacks_cpu : PlacementRequest → Allocation → Node → Bool
    lacks_cpu q a n = f.less (f.minus (cpu_limit n) (f.of_int a.cpu_cores)) (f.of_int q.cpu_cores)

    -- The guards of the loop in their order, and the score where all are passed.
    unfoldable pub judged : PlacementRequest → Allocation → Node → Result Reason f.Num
    judged q a n = do
      fail_if (is_listed n.id q.exclude_node_ids) excluded
      fail_if (not (is_schedulable n)) not_schedulable
      fail_if (not (q.location_id == "") && not (n.location_id == q.location_id)) location_mismatch
      fail_if
          (not (q.architecture == "") && not (fleet.equal_fold q.architecture (architecture_of n)))
          architecture_mismatch
      fail_if (lacks_kvm q n) no_kvm
      fail_if (lacks_cpu q a n) insufficient_cpu
      fail_if (ltb_ℤ (int64 (memory_limit n -ℤ a.memory_bytes)) q.memory_bytes) insufficient_memory
      fail_if (ltb_ℤ (int64 (storage_limit n -ℤ a.storage_bytes)) q.storage_bytes)
          insufficient_storage
      ok (score q a n)

    unfoldable pub evaluate_candidates :
        PlacementRequest → List Node → List Instance → List Candidate
    evaluate_candidates q nodes instances =
        let m = node_allocations instances [] in
        map (λ n. record { node = n; verdict = judged q (allocation_of n.id m) n }) nodes

    abbrev pub is_eligible : Candidate → Bool
    is_eligible c = is_ok c.verdict

    abbrev pub first_of : List Candidate → Result PlacementError Node
    first_of [] = err no_eligible_nodes
    first_of (c ∷ rest) = ok c.node

    unfoldable pub select_node :
        (List Candidate → List Candidate)
        → PlacementRequest
        → List Node
        → List Instance
        → Result PlacementError Node
    select_node sort q nodes instances =
        first_of (sort (keep is_eligible (evaluate_candidates q nodes instances)))
