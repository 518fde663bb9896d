-- ===== src/Stats/Snapshot.antt =====
-- gestalt/stats.py: how a snapshot of the monitor becomes statistics.
use gestalt_agentic_software.Stats.Policy.{clamp_score, default_thresholds, derive_load_level}
use gestalt_agentic_software.Prelude.{ℕ, Bool, ◌&&◌, ◌||◌, Option, none, some, if◌then◌else◌}
use gestalt_agentic_software.Prelude.Int.{pos, ◌+ℤ◌, ◌-ℤ◌, ◌*ℤ◌, max_ℤ, min_ℤ}
use gestalt_agentic_software.Python.Exec.{Exec, lift, gets, modify, ◌>>=◌, ◌>>◌}
use gestalt_agentic_software.Python.Dict.{string_key}
use gestalt_agentic_software.Python.Values.{Float}
use gestalt_agentic_software.Python.Floats.{FloatOps, int_of, float_zero, float_one}
use gestalt_agentic_software.Stats.Levels.{PerformanceTier}
use gestalt_agentic_software.Stats.Model.{StatsThresholds, MonitorSnapshot, GestaltStats}

module _ (f : FloatOps) where
  abbrev percent : Float → Float
  percent x = f.mul x (f.of_int (pos 100))

  -- `validate_ratio` on the three ratio fields of a `MonitorSnapshot`.
  unfoldable pub validate_ratio : Float → Bool
  validate_ratio value = f.le float_zero value && f.le value float_one

  unfoldable pub validate_snapshot : MonitorSnapshot → Bool
  unfolding validate_ratio
  validate_snapshot m =
      validate_ratio m.error_rate
      && validate_ratio m.blackboard_consistency
      && validate_ratio m.collaboration_success_rate

  unfoldable pub derive_performance_tier : Float → Float → StatsThresholds → PerformanceTier
  derive_performance_tier p95 error_rate t =
      if f.int_le t.critical_latency_ms p95 || f.le t.critical_error_rate error_rate
      then PerformanceTier.critical
      else if f.int_le t.high_latency_ms p95 || f.le t.degraded_error_rate error_rate
      then PerformanceTier.high
      else if f.int_le t.medium_latency_ms p95
      then PerformanceTier.medium
      else PerformanceTier.low

  unfoldable pub refresh_cost_efficiency : Exec GestaltStats (Unit {0})
  refresh_cost_efficiency = do
    s ← gets (λ s. s)
    latency ← lift (int_of f (f.div s.average_latency_ms (f.of_int (pos 100))))
    failure ← lift (int_of f (percent s.error_rate))
    cost ← lift (int_of f (f.mul s.cost_per_cycle (f.of_int (pos 10))))
    let score =
        max_ℤ (pos 0)
          (pos 100 -ℤ min_ℤ latency (pos 40) -ℤ min_ℤ failure (pos 40) -ℤ min_ℤ cost (pos 30))
    modify (λ s. record s { cost_efficiency_score = score })

  unfoldable pub refresh_security_risk : Exec GestaltStats (Unit {0})
  unfolding clamp_score
  refresh_security_risk = do
    s ← gets (λ s. s)
    let findings_penalty = min_ℤ (s.open_security_findings *ℤ pos 10) (pos 60)
    errors ← lift (int_of f (percent s.error_rate))
    consistency ← lift (int_of f (f.mul s.blackboard_consistency (f.of_int (pos 20))))
    let score =
        clamp_score
          (findings_penalty +ℤ min_ℤ errors (pos 20) +ℤ max_ℤ (pos 0) (pos 20 -ℤ consistency))
    modify (λ s. record s { security_risk_score = score })

  unfoldable pub refresh_cohesion : Exec GestaltStats (Unit {0})
  unfolding clamp_score
  refresh_cohesion = do
    s ← gets (λ s. s)
    consistency ← lift (int_of f (f.mul s.blackboard_consistency (f.of_int (pos 40))))
    collaboration ← lift (int_of f (f.mul s.collaboration_success_rate (f.of_int (pos 40))))
    errors ← lift (int_of f (percent s.error_rate))
    let score = clamp_score (consistency +ℤ collaboration +ℤ max_ℤ (pos 0) (pos 20 -ℤ errors))
    modify (λ s. record s { gestalt_cohesion_score = score })

  -- The assignments of `apply_monitor_snapshot` before the scores are refreshed.
  unfoldable pub record_snapshot : MonitorSnapshot → StatsThresholds → GestaltStats → GestaltStats
  unfolding derive_load_level derive_performance_tier
  record_snapshot m t s = record s {
    queue_depth = m.queue_depth;
    active_cycles = m.active_cycles;
    average_latency_ms = m.avg_latency_ms;
    p95_latency_ms = m.p95_latency_ms;
    error_rate = m.error_rate;
    failure_count = m.failure_count;
    success_count = m.success_count;
    cost_per_cycle = m.cost_per_cycle;
    blackboard_consistency = m.blackboard_consistency;
    collaboration_success_rate = m.collaboration_success_rate;
    open_security_findings = m.security_open_findings;
    load_level = derive_load_level m.queue_depth m.active_cycles t;
    performance_tier = derive_performance_tier m.p95_latency_ms m.error_rate t;
  }

  abbrev or_default : Option StatsThresholds → StatsThresholds
  or_default none = default_thresholds
  or_default (some t) = t

  unfoldable pub apply_monitor_snapshot :
      MonitorSnapshot → Option StatsThresholds → ℕ → Exec GestaltStats (Unit {0})
  unfolding record_snapshot refresh_cost_efficiency refresh_security_risk refresh_cohesion
  apply_monitor_snapshot m t now = do
    modify (record_snapshot m (or_default t))
    refresh_cost_efficiency
    refresh_security_risk
    refresh_cohesion
    modify (λ s. record s { last_updated = now })
