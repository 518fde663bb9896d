-- ===== src/Agents/Monitor.antt =====
-- gestalt/agents/monitor.py
use gestalt_agentic_software.Agents.Telemetry.{copy_stats, is_anomaly, snapshot_of, updated_stats}
use gestalt_agentic_software.Agents.Prompts.{monitor_prompt}
use gestalt_agentic_software.BaseAgent.Artifacts.{
  Agent, AgentArtifacts, check_artifacts, summary_only,
}
use gestalt_agentic_software.Tools.Outputs.{ToolInput, ToolOutput}
use gestalt_agentic_software.Python.Exec.{Exec, Result, ok, ◌>>=◌, lift, pure}
use gestalt_agentic_software.Tools.Registry.{ToolRegistry}
use gestalt_agentic_software.Protocol.Enums.{GestaltCommandType, MemoryKind}
use gestalt_agentic_software.Protocol.Models.{
  Metadata, AgentHealthSnapshot, GestaltCommand, Uuid, Datetime, AgentHealthSnapshot,
}
use gestalt_agentic_software.BaseAgent.Make.{make_command, make_memory}
use gestalt_agentic_software.Protocol.Constraints.{check_health, check_stats_report}
use gestalt_agentic_software.Python.Floats.{FloatOps, float_zero, int_of}
use gestalt_agentic_software.Prelude.Int.{pos}
use gestalt_agentic_software.Runtime.{Host, World, Session}
use gestalt_agentic_software.Protocol.Reports.{
  GestaltGraphState, GestaltStatsReport, AgentContextEnvelope,
}
use gestalt_agentic_software.Stats.Model.{GestaltStats, MonitorSnapshot}
use gestalt_agentic_software.Stats.Levels.{AgentHealth, tier_text}
use gestalt_agentic_software.Stats.Policy.{
  should_trigger_optimizer, should_trigger_security_intervention,
}
use gestalt_agentic_software.Python.Values.{str, bool, int, Value}
use gestalt_agentic_software.Config.{GestaltSettings, AgentPolicyConfig}
use gestalt_agentic_software.Tools.Fields.{model, long_text, Coercions, flag_field, and_then}
use gestalt_agentic_software.Prelude.{
  List, String, Bool, ◌∷◌, [], some, none, ◌+++◌, false, true, ◌++◌,
}
use gestalt_agentic_software.BaseAgent.Services
use gestalt_agentic_software.Runtime
use gestalt_agentic_software.Python.Dict.{string_key}

pub record MonitorReasoning : Type 0 where
  pub summary : String
  pub anomaly_detected : Bool

unfoldable pub monitor_reasoning : Coercions → Metadata → Result MonitorReasoning
unfolding model long_text flag_field
monitor_reasoning c payload = model ("summary" ∷ "anomaly_detected" ∷ []) payload (
    and_then (long_text payload "summary" 12) λ s.
      and_then (flag_field c payload "anomaly_detected")
        λ a. ok (record { summary = s; anomaly_detected = a }))

module _ (settings : GestaltSettings) (host : Host) where
  abbrev f : FloatOps
  f = host.floats

  -- An `AgentHealthSnapshot` for each configured agent.
  unfoldable pub health_snapshots :
      List (String × AgentPolicyConfig) → Result (List AgentHealthSnapshot)
  unfolding check_health
  health_snapshots [] = ok []
  health_snapshots ((name, policy) ∷ rest) =
      let others = health_snapshots rest in
      and_then
        (check_health f (record {
          agent_name = name;
          status = AgentHealth.healthy;
          last_success_at = none;
          last_failure_at = none;
          error_rate = float_zero;
          avg_latency_ms = float_zero;
        }))
        λ h. and_then others λ hs. ok (h ∷ hs)

  -- GestaltStatsReport(…), with its id and time
  abbrev pub stats_report_of :
      GestaltGraphState
      → GestaltStats
      → MonitorSnapshot
      → List AgentHealthSnapshot
      → Uuid
      → Datetime
      → GestaltStatsReport
  stats_report_of state updated m health id now = record {
    report_id = id;
    trace_id = state.trace_id;
    collected_by = "monitor";
    load_level = updated.load_level;
    performance_tier = updated.performance_tier;
    cost_efficiency_score = updated.cost_efficiency_score;
    security_risk_score = updated.security_risk_score;
    gestalt_cohesion_score = updated.gestalt_cohesion_score;
    queue_depth = m.queue_depth;
    active_cycles = m.active_cycles;
    failure_ratio = m.error_rate;
    p95_latency_ms = m.p95_latency_ms;
    agent_health = health;
    captured_at = now;
  }

  unfoldable pub make_stats_report :
      GestaltGraphState
      → GestaltStats
      → MonitorSnapshot
      → List AgentHealthSnapshot
      → Exec Session GestaltStatsReport
  unfolding check_stats_report Runtime.utc_now Runtime.new_uuid
  make_stats_report state updated m health = do
    id ← Runtime.on_world Runtime.new_uuid
    now ← Runtime.on_world (Runtime.utc_now host)
    lift (check_stats_report f (stats_report_of state updated m health id now))

  unfoldable pub optimize_command :
      GestaltGraphState → Bool → GestaltStatsReport → Exec Session (List GestaltCommand)
  optimize_command state false report = pure []
  optimize_command state true report = do
    command ←
        make_command host state.trace_id GestaltCommandType.optimize "monitor" "optimizer"
          "Material telemetry drift requires adaptive optimization."
          (("stats", host.stats_report_value report) ∷ [])
    pure (command ∷ [])

  unfoldable pub audit_command : GestaltGraphState → Bool → Exec Session (List GestaltCommand)
  audit_command state false = pure []
  audit_command state true = do
    command ←
        make_command host state.trace_id GestaltCommandType.audit "monitor" "security_audit"
          "Security risk or open findings exceeded the intervention threshold."
          (("reason", str "monitor_threshold_crossed") ∷ [])
    pure (command ∷ [])

  module _ (coercions : Coercions) (tools : ToolRegistry World ToolInput ToolOutput) where
    abbrev pub monitor_payload : MonitorSnapshot → GestaltStats → Metadata
    monitor_payload m updated =
        (
          "summary",
          str (
              "Monitor observed queue depth "
              +++ host.int_text m.queue_depth
              +++ ", p95 latency "
              +++ host.fixed_text m.p95_latency_ms
              +++ "ms, and error rate "
              +++ host.percent_text m.error_rate
              +++ "."),
        )
        ∷ ("anomaly_detected", bool (is_anomaly updated.performance_tier))
        ∷ []

    -- The readings of the three metrics, as a snapshot.
    unfoldable pub take_snapshot : GestaltGraphState → Exec Session MonitorSnapshot
    take_snapshot state = do
      queue ← Services.query_prometheus settings host "monitor" tools state "queue_depth"
      latency ← Services.query_prometheus settings host "monitor" tools state "latency_p95_ms"
      errors ← Services.query_prometheus settings host "monitor" tools state "error_ratio"
      depth ← lift (int_of f queue.value)
      lift (snapshot_of host state depth latency.value errors.value)

    -- The artifacts of the report: what is compared with is the copy of the statistics before.
    unfoldable pub report_artifacts :
        GestaltGraphState
        → MonitorSnapshot
        → GestaltStats
        → String
        → GestaltStatsReport
        → Exec Session AgentArtifacts
    report_artifacts state m updated summary report = do
      let (drifted, now_stats) =
          should_trigger_optimizer (some (copy_stats state.stats))
            (pos settings.stats.optimizer_trigger_delta) updated
      optimize ← optimize_command state drifted report
      audit ← audit_command state (should_trigger_security_intervention now_stats)
      memory ←
          make_memory host state.trace_id MemoryKind.stats "Monitor telemetry snapshot" summary
            ("monitor" ∷ "stats" ∷ tier_text updated.performance_tier ∷ [])
            (("queue_depth", int m.queue_depth)
              ∷ ("p95_latency_ms", Value.float m.p95_latency_ms)
              ∷ ("error_rate", Value.float m.error_rate)
              ∷ [])
      lift (
          check_artifacts (record (summary_only summary) {
            commands = optimize ++ audit;
            memories = memory ∷ [];
            stats_report = some report;
            metrics =
                ("queue_depth", f.of_int m.queue_depth)
                ∷ ("p95_latency_ms", m.p95_latency_ms)
                ∷ ("error_rate", m.error_rate)
                ∷ [];
          }))

    unfoldable pub monitor_artifacts :
        AgentContextEnvelope → GestaltGraphState → Exec Session AgentArtifacts
    monitor_artifacts context state = do
      m ← take_snapshot state
      updated ← Runtime.on_world (updated_stats host settings m state.stats)
      reasoning ←
          Services.complete_structured settings host "monitor" (monitor_reasoning coercions)
            monitor_prompt ("Monitor objective: " +++ context.objective) updated
            (monitor_payload m updated)
      health ← lift (health_snapshots settings.agents)
      report ← make_stats_report state updated m health
      report_artifacts state m updated reasoning.summary report

    unfoldable pub monitor_agent : Agent
    unfolding monitor_artifacts
    monitor_agent = record {
      agent_name = "monitor";
      system_prompt = monitor_prompt;
      produce_artifacts = λ context messages state. monitor_artifacts context state;
    }
