-- ===== src/Examples/Stats.antt =====
-- The theorems on the statistics at concrete inputs.
use gestalt_agentic_software.Examples.Doubles.Laws.{doubles-FloatLaws}
use gestalt_agentic_software.Examples.Doubles.{
  doubles, double_of_int, double_to_int, mul_magnitude, div_magnitude, encode, capped, nearest,
  round, units, one_in_units,
}
use gestalt_agentic_software.Stats.Snapshot.{
  validate_snapshot, validate_ratio, apply_monitor_snapshot,
}
use gestalt_agentic_software.Stats.Tiers.{
  derive_load_level_mono, reached, promote-demote, derive_load_level-reached, promote-demote,
}
use gestalt_agentic_software.Stats.Bounds.{HasScores, apply_monitor_snapshot-HasScores}
use gestalt_agentic_software.Stats.Optimizer.{
  rank, IsMaterial, derive_model_policy_mono, should_trigger_optimizer_iff,
}
use gestalt_agentic_software.Python.Exec.{ok}
use gestalt_agentic_software.Prelude.Int.{pos, max_ℤ, ◌*ℤ◌}
use gestalt_agentic_software.Prelude.{
  some, ◌≡◌, min, none, true, suc, ◌+◌, ◌↔◌, ◌≤◌, arith, max, ◌-◌, refl,
}
use gestalt_agentic_software.Stats.Model.{GestaltStats, MonitorSnapshot}
use gestalt_agentic_software.Stats.Levels.{to_int, PerformanceTier, index, LoadLevel}
use gestalt_agentic_software.Stats.Policy.{
  promote_load, promote_performance, should_trigger_optimizer, derive_load_level,
  default_thresholds, derive_model_policy, demote_load, demote_performance,
}
use gestalt_agentic_software.Examples.Data.{snapshot, stats}

-- 900.0 milliseconds, an error rate of 0.05, a cost of 1.5, a consistency of 0.9 and a success rate of 0.8.
abbrev measured : MonitorSnapshot
measured = record snapshot {
  avg_latency_ms = 0x408c200000000000;
  p95_latency_ms = 0x40a2c00000000000;
  error_rate = 0x3fa999999999999a;
  cost_per_cycle = 0x3ff8000000000000;
  blackboard_consistency = 0x3feccccccccccccd;
  collaboration_success_rate = 0x3fe999999999999a;
}

apply_monitor_snapshot-HasScores_example :
    ((apply_monitor_snapshot doubles measured none 5 stats).0 ≡ ok tt)
    × HasScores (apply_monitor_snapshot doubles measured none 5 stats).1
unfolding doubles validate_snapshot validate_ratio double_of_int double_to_int mul_magnitude
    div_magnitude encode capped nearest round units one_in_units
apply_monitor_snapshot-HasScores_example =
    apply_monitor_snapshot-HasScores {f = doubles} measured none 5 stats
      (record {
        latency = pos 9;
        failure = pos 5;
        cost = pos 15;
        twenty = pos 18;
        forty = pos 36;
        collaboration = pos 32;
        latency_eq = refl;
        failure_eq = refl;
        cost_eq = refl;
        twenty_eq = refl;
        forty_eq = refl;
        collaboration_eq = refl;
      })
      doubles-FloatLaws refl refl refl

derive_load_level_mono_example :
    to_int (derive_load_level (pos 6) (pos 1) default_thresholds)
    ≤ to_int (derive_load_level (pos 60) (pos 3) default_thresholds)
derive_load_level_mono_example =
    derive_load_level_mono default_thresholds (pos 6) (pos 60) (pos 1) (pos 3) (omega arith)
      (omega arith)

derive_load_level-reached_example :
    to_int (derive_load_level (pos 60) (pos 3) default_thresholds)
    ≡ suc (reached default_thresholds (max_ℤ (pos 60) (pos 3 *ℤ pos 5)))
derive_load_level-reached_example =
    derive_load_level-reached default_thresholds (pos 60) (pos 3)
      (record { low_medium = omega arith; medium_high = omega arith; high_critical = omega arith })

promote-demote_example :
    ((promote_load stats).0 ≡ ok (promote_load stats).1.load_level)
    × (to_int (promote_load stats).1.load_level ≡ min 5 (to_int stats.load_level + 1))
    × ((demote_load stats).0 ≡ ok (demote_load stats).1.load_level)
    × (to_int (demote_load stats).1.load_level ≡ max 1 (to_int stats.load_level - 1))
    × ((promote_performance stats).0 ≡ ok (promote_performance stats).1.performance_tier)
    × (index (promote_performance stats).1.performance_tier
        ≡ min 3 (index stats.performance_tier + 1))
    × ((demote_performance stats).0 ≡ ok (demote_performance stats).1.performance_tier)
    × (index (demote_performance stats).1.performance_tier ≡ index stats.performance_tier - 1)
promote-demote_example = promote-demote stats

abbrev degraded : GestaltStats
degraded = record stats {
  performance_tier = PerformanceTier.high;
  load_level = LoadLevel.extreme;
  cost_efficiency_score = pos 70;
}

should_trigger_optimizer_iff_example :
    (((should_trigger_optimizer (some stats) (pos 10) degraded).0 ≡ true)
      ↔ IsMaterial stats 10 degraded)
    × ((should_trigger_optimizer (some stats) (pos 10) degraded).1 ≡ record degraded {
      optimizer_triggered = (should_trigger_optimizer (some stats) (pos 10) degraded).0;
    })
should_trigger_optimizer_iff_example = should_trigger_optimizer_iff stats degraded 10

derive_model_policy_mono_example :
    rank (derive_model_policy stats).preferred_route
    ≤ rank (derive_model_policy degraded).preferred_route
unfolding to_int index
derive_model_policy_mono_example =
    derive_model_policy_mono stats degraded (omega arith) (omega arith)
