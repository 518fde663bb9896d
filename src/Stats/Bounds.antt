-- ===== src/Stats/Bounds.antt =====
-- The scores that the monitor derives from a snapshot lie between 0 and 100.
use gestalt_agentic_software.Stats.Snapshot.{apply_monitor_snapshot, validate_snapshot}
use gestalt_agentic_software.Prelude.{ℕ, ◌≡◌, Option, some, arith, true}
use gestalt_agentic_software.Prelude.Int.{ℤ, pos, ◌≤ℤ◌, ◌-ℤ◌, min_ℤ, max_ℤ, -ℤ_parts, ◌*ℤ◌, ◌+ℤ◌}
use gestalt_agentic_software.Python.Exec.{ok}
use gestalt_agentic_software.Python.Floats.{FloatOps, FloatLaws, float_zero}
use gestalt_agentic_software.Stats.Model.{StatsThresholds, MonitorSnapshot, GestaltStats}
use gestalt_agentic_software.Stats.Policy.{clamp_score}

abbrev pub IsScore : ℤ → Type 0
IsScore z = (pos 0 ≤ℤ z) × (z ≤ℤ pos 100)

pub clamp_score-IsScore : (z : ℤ) → IsScore (clamp_score z)
unfolding clamp_score
clamp_score-IsScore z = ground arith

pub record HasScores (s : GestaltStats) : Type 0 where
  pub cost : IsScore s.cost_efficiency_score
  pub security : IsScore s.security_risk_score
  pub cohesion : IsScore s.gestalt_cohesion_score

cost_bound :
    (latency failure cost : ℤ)
    → pos 0 ≤ℤ latency
    → pos 0 ≤ℤ failure
    → pos 0 ≤ℤ cost
    → IsScore (
        max_ℤ
          (pos 0)
          (pos 100 -ℤ min_ℤ latency (pos 40) -ℤ min_ℤ failure (pos 40) -ℤ min_ℤ cost (pos 30)))
cost_bound latency failure cost p q r = ground (
  arith,
  -ℤ_parts (pos 100) (min_ℤ latency (pos 40)),
  -ℤ_parts (pos 100 -ℤ min_ℤ latency (pos 40)) (min_ℤ failure (pos 40)),
  -ℤ_parts (pos 100 -ℤ min_ℤ latency (pos 40) -ℤ min_ℤ failure (pos 40)) (min_ℤ cost (pos 30)),
)

-- Every `int(…)` of the snapshot's refresh has a value: no operand is infinite or a NaN.
pub record Converts (f : FloatOps) (m : MonitorSnapshot) : Type 0 where
  pub latency : ℤ
  pub failure : ℤ
  pub cost : ℤ
  pub twenty : ℤ
  pub forty : ℤ
  pub collaboration : ℤ
  pub latency_eq : f.to_int (f.div m.avg_latency_ms (f.of_int (pos 100))) ≡ some latency
  pub failure_eq : f.to_int (f.mul m.error_rate (f.of_int (pos 100))) ≡ some failure
  pub cost_eq : f.to_int (f.mul m.cost_per_cycle (f.of_int (pos 10))) ≡ some cost
  pub twenty_eq : f.to_int (f.mul m.blackboard_consistency (f.of_int (pos 20))) ≡ some twenty
  pub forty_eq : f.to_int (f.mul m.blackboard_consistency (f.of_int (pos 40))) ≡ some forty
  pub collaboration_eq :
      f.to_int (f.mul m.collaboration_success_rate (f.of_int (pos 40))) ≡ some collaboration

module _ {f : FloatOps} (m : MonitorSnapshot) (t : Option StatsThresholds) (now : ℕ)
    (s : GestaltStats) (c : Converts f m) where
  returns : (apply_monitor_snapshot f m t now s).0 ≡ ok tt
  unfolding apply_monitor_snapshot
  returns =
      ground
        (arith, c.latency_eq, c.failure_eq, c.cost_eq, c.twenty_eq, c.forty_eq, c.collaboration_eq)

  cost_score :
      (apply_monitor_snapshot f m t now s).1.cost_efficiency_score
      ≡ max_ℤ
          (pos 0)
          (pos 100 -ℤ min_ℤ c.latency (pos 40) -ℤ min_ℤ c.failure (pos 40) -ℤ min_ℤ c.cost (pos 30))
  unfolding apply_monitor_snapshot
  cost_score =
      ground
        (arith, c.latency_eq, c.failure_eq, c.cost_eq, c.twenty_eq, c.forty_eq, c.collaboration_eq)

  security_score :
      (apply_monitor_snapshot f m t now s).1.security_risk_score
      ≡ clamp_score (
          min_ℤ (m.security_open_findings *ℤ pos 10) (pos 60)
          +ℤ min_ℤ c.failure (pos 20)
          +ℤ max_ℤ (pos 0) (pos 20 -ℤ c.twenty))
  unfolding apply_monitor_snapshot
  security_score =
      ground
        (arith, c.latency_eq, c.failure_eq, c.cost_eq, c.twenty_eq, c.forty_eq, c.collaboration_eq)

  cohesion_score :
      (apply_monitor_snapshot f m t now s).1.gestalt_cohesion_score
      ≡ clamp_score (c.forty +ℤ c.collaboration +ℤ max_ℤ (pos 0) (pos 20 -ℤ c.failure))
  unfolding apply_monitor_snapshot
  cohesion_score =
      ground
        (arith, c.latency_eq, c.failure_eq, c.cost_eq, c.twenty_eq, c.forty_eq, c.collaboration_eq)

  -- When every conversion of a snapshot that passes its ratio validators has a value, and the latency
  -- and the cost are not negative, `apply_monitor_snapshot` returns and the three scores lie between 0
  -- and 100. The arithmetic of floats must satisfy `FloatLaws`.
  pub apply_monitor_snapshot-HasScores :
      FloatLaws f
      → validate_snapshot f m ≡ true
      → f.le float_zero m.avg_latency_ms ≡ true
      → f.le float_zero m.cost_per_cycle ≡ true
      → ((apply_monitor_snapshot f m t now s).0 ≡ ok tt)
        × HasScores (apply_monitor_snapshot f m t now s).1
  unfolding validate_snapshot
  apply_monitor_snapshot-HasScores laws valid latency_nonneg cost_nonneg = (
    returns,
    record {
      cost = rw cost_score (
          cost_bound c.latency c.failure c.cost
            (laws.div_nonneg _ 100 _ (omega arith) (omega arith) latency_nonneg c.latency_eq)
            (laws.mul_nonneg _ 100 _ (omega arith) errors_nonneg c.failure_eq)
            (laws.mul_nonneg _ 10 _ (omega arith) cost_nonneg c.cost_eq));
      security = rw security_score (clamp_score-IsScore _);
      cohesion = rw cohesion_score (clamp_score-IsScore _);
    },
  )
    where
      errors_nonneg : f.le float_zero m.error_rate ≡ true
      errors_nonneg = ground arith
