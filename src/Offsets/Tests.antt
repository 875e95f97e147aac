-- ===== src/Offsets/Tests.antt =====
-- Readings of one node.
use nox_indexer.Prelude.{◌+◌, ◌*◌, ◌≤◌, ◌≡◌, true, ◌||◌, not, none, [], ◌∷◌, if◌then◌else◌}
use nox_indexer.Prelude.Int.{pos}
use nox_indexer.Offsets.Counters.{packets_received, units, rate_ceiling}
use nox_indexer.Offsets.Observe.{
  StructuredMetrics, NodeOffset, default_offset, observe, window_secs, lifetime,
}
use nox_indexer.Offsets.Lifetime.{
  IsAdvanced, observe-IsAdvanced, observe_all, observe_all_bounds, credited, observe_banks,
}

-- A node that started at second 5 and reports 40 units of everything.
abbrev forty : StructuredMetrics
forty = record { node_start_time = pos 5; counters = λ c. units 40 }

-- The same node after a restart.
abbrev three : StructuredMetrics
three = record { node_start_time = pos 900; counters = λ c. units 3 }

observe-IsAdvanced_example :
    IsAdvanced 2 default_offset
      (observe 2 default_offset forty 1_000).0
      (window_secs none 1_000)
      packets_received
observe-IsAdvanced_example = observe-IsAdvanced 2 default_offset forty 1_000 packets_received

observe_all_bounds_example :
    (lifetime default_offset packets_received
      ≤ lifetime
          (observe_all 2 default_offset ((forty, 0) ∷ (three, 70_000_000_000) ∷ []))
          packets_received)
    × (lifetime
          (observe_all 2 default_offset ((forty, 0) ∷ (three, 70_000_000_000) ∷ []))
          packets_received
        ≤ lifetime default_offset packets_received
          + default_offset.allowance packets_received
          + rate_ceiling 2 packets_received
            * credited 2 default_offset ((forty, 0) ∷ (three, 70_000_000_000) ∷ []))
observe_all_bounds_example =
    observe_all_bounds 2 default_offset ((forty, 0) ∷ (three, 70_000_000_000) ∷ []) packets_received

abbrev observed : NodeOffset
observed = record default_offset { last_node_start_time = pos 5; last_raw = λ c. 40 }

observe_banks_example :
    ((observe 2 observed three 0).0.banked packets_received
      ≡ 0 + (if (observe 2 observed three 0).1.restarted then 40 else 0))
    × (((not (observe 2 observed three 0).1.restarted) || (observe 2 observed three 0).0.dirty)
        ≡ true)
observe_banks_example = observe_banks 2 observed three 0 packets_received
