-- ===== src/Agents/Telemetry.antt =====
-- What gestalt/agents/monitor.py makes of its readings: the snapshot and the statistics.
use gestalt_agentic_software.Python.Exec.{Exec, Result, ok, raised, validated}
use gestalt_agentic_software.Protocol.Enums.{is_failed, is_completed}
use gestalt_agentic_software.Stats.Snapshot.{apply_monitor_snapshot, validate_snapshot}
use gestalt_agentic_software.Python.Floats.{FloatOps, float_one}
use gestalt_agentic_software.Prelude.Int.{pos, ℤ, max_ℤ}
use gestalt_agentic_software.Runtime.{Host, World}
use gestalt_agentic_software.Protocol.Reports.{GestaltAuditReport, GestaltGraphState}
use gestalt_agentic_software.Stats.Model.{GestaltStats, StatsThresholds, MonitorSnapshot}
use gestalt_agentic_software.Stats.Levels.{PerformanceTier, tier_text}
use gestalt_agentic_software.Stats.Policy.{clamp_score}
use gestalt_agentic_software.Python.Values.{Float}
use gestalt_agentic_software.Config.{GestaltSettings, StatsConfig}
use gestalt_agentic_software.Prelude.{
  List, Bool, if◌then◌else◌, mem_str, ℕ, ◌∷◌, [], length, some, ◌+◌, select,
}
use gestalt_agentic_software.Python.Dict.{string_key}

unfoldable pub thresholds_from_settings : StatsConfig → StatsThresholds
thresholds_from_settings c = record {
  medium_latency_ms = pos c.latency_thresholds_ms.medium;
  high_latency_ms = pos c.latency_thresholds_ms.high;
  critical_latency_ms = pos c.latency_thresholds_ms.critical;
  degraded_error_rate = c.error_rate_thresholds.degraded;
  critical_error_rate = c.error_rate_thresholds.critical;
  queue_low = pos c.queue_depth_thresholds.low;
  queue_medium = pos c.queue_depth_thresholds.medium;
  queue_high = pos c.queue_depth_thresholds.high;
  queue_critical = pos c.queue_depth_thresholds.critical;
  optimizer_trigger_delta = pos c.optimizer_trigger_delta;
}

-- The literals 0.7, 0.1 and 0.95.
abbrev float_average : Float
float_average = 0x3fe6666666666666

abbrev float_tenth : Float
float_tenth = 0x3fb999999999999a

abbrev float_success : Float
float_success = 0x3fee666666666666

-- GestaltStats.model_validate(stats.model_dump(…)): a copy, of which the validator clamps the scores.
unfoldable pub copy_stats : GestaltStats → GestaltStats
unfolding clamp_score
copy_stats s = record s {
  cost_efficiency_score = clamp_score s.cost_efficiency_score;
  security_risk_score = clamp_score s.security_risk_score;
  gestalt_cohesion_score = clamp_score s.gestalt_cohesion_score;
}

-- sum(len(report.findings) for report in …)
unfoldable pub open_findings : List GestaltAuditReport → ℕ
open_findings [] = 0
open_findings (r ∷ rs) = length r.findings + open_findings rs

-- The text of a tier that is high or critical.
unfoldable pub is_anomaly : PerformanceTier → Bool
unfolding tier_text
is_anomaly tier = mem_str (tier_text tier) ("high" ∷ "critical" ∷ [])

module _ (host : Host) where
  abbrev f : FloatOps
  f = host.floats

  -- max(0.1, x)
  abbrev at_least_tenth : Float → Float
  at_least_tenth x = if f.le float_tenth x then x else float_tenth

  -- MonitorSnapshot(…), of the depth of the queue and the readings of latency and errors
  unfoldable pub snapshot_of : GestaltGraphState → ℤ → Float → Float → Result MonitorSnapshot
  unfolding validate_snapshot is_failed is_completed open_findings
  snapshot_of state queue latency errors =
      let m : MonitorSnapshot = record {
        queue_depth = queue;
        active_cycles = max_ℤ (pos 1) (pos (length state.execution_reports));
        avg_latency_ms = f.mul latency float_average;
        p95_latency_ms = latency;
        error_rate = errors;
        failure_count = pos (length (select (λ r. is_failed r.status) state.execution_reports));
        success_count = pos (length (select (λ r. is_completed r.status) state.execution_reports));
        cost_per_cycle = at_least_tenth (f.div latency (f.of_int (pos 1000)));
        blackboard_consistency = float_one;
        collaboration_success_rate = float_success;
        security_open_findings = pos (open_findings state.audit_reports);
      } in
      validated (validate_snapshot f m) m

  module _ (settings : GestaltSettings) where
    -- updated_stats.apply_monitor_snapshot(…), which reads the clock at its end.
    unfoldable pub updated_stats : MonitorSnapshot → GestaltStats → Exec World GestaltStats
    unfolding apply_monitor_snapshot copy_stats thresholds_from_settings
    updated_stats m stats w =
        let (r, after) =
          apply_monitor_snapshot f m (some (thresholds_from_settings settings.stats))
            (host.clock w.ticks) (copy_stats stats) in
        elim r [ ok _ ↦ (ok after, record w { ticks = w.ticks + 1 }) | raised e ↦ (raised e, w) ]
