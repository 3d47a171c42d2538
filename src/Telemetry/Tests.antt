-- ===== src/Telemetry/Tests.antt =====
-- A ring of two samples.
use aurora_old.Base.{ℕ, Option, none, some, List, [], ◌∷◌, ◌≡◌}
use aurora_old.Base.Int.{pos}
use aurora_old.Telemetry.Ring.{MetricSample, capacity_for, new_ring, in_series, matching}
use aurora_old.Telemetry.Latest.{push_all, matching-latest}

-- The load of a node, as a whole number, at a second.
abbrev load : ℕ → ℕ → MetricSample ℕ
load value second = record {
  resource_type = "node";
  resource_id = "n1";
  metric_name = "load_1m";
  value = value;
  timestamp = pos second;
}

abbrev pushed : List (List (Option (MetricSample ℕ)))
pushed = (some (load 7 1) ∷ none ∷ []) ∷ (some (load 8 2) ∷ some (load 9 3) ∷ []) ∷ []

matching-latest_example :
    matching "node" "n1" "load_1m" (pos 0) (pos 9) (push_all pushed (new_ring (pos 2)))
    ≡ load 9 3 ∷ load 8 2 ∷ []
unfolding capacity_for in_series
matching-latest_example = matching-latest (pos 2) pushed "node" "n1" "load_1m" (pos 0) (pos 9)
