-- ===== src/BaseAgent/Outputs.antt =====
-- gestalt/base_agent.py: what becomes of the artifacts.
use gestalt_agentic_software.BaseAgent.Artifacts.{Agent, AgentArtifacts}
use gestalt_agentic_software.Stats.Model.{GestaltStats}
use gestalt_agentic_software.Protocol.Enums.{CommandStatus}
use gestalt_agentic_software.Protocol.Validation.{check_report}
use gestalt_agentic_software.Protocol.Models.{Datetime, AgentHealthSnapshot, GestaltMessage}
use gestalt_agentic_software.Protocol.Reports.{
  GestaltGraphState, GestaltStatsReport, AgentExecutionReport,
}
use gestalt_agentic_software.Stats.Policy.{set_agent_health}
use gestalt_agentic_software.Blackboard.{
  write_memory, write_command, write_stats_report, write_audit_report, write_optimization_proposal,
  GestaltBlackboard,
}
use gestalt_agentic_software.Config.{GestaltSettings}
use gestalt_agentic_software.Python.Exec.{Exec, pure, ◌>>=◌, lift, ◌>>◌, for_each}
use gestalt_agentic_software.Prelude.{Option, List, [], some, none, ◌∷◌, ◌++◌}
use gestalt_agentic_software.Python.Dict
use gestalt_agentic_software.Python.Dict.{Dict, string_key}
use gestalt_agentic_software.Runtime.{Host, World, Session}
use gestalt_agentic_software.Runtime

module _ (settings : GestaltSettings) (host : Host) (agent : Agent) where
  unfoldable pub build_execution_report :
      GestaltGraphState
      → AgentArtifacts
      → Datetime
      → CommandStatus
      → Exec World AgentExecutionReport
  unfolding check_report Runtime.utc_now Runtime.new_uuid
  build_execution_report state artifacts started_at status = do
    finished ← Runtime.utc_now host
    id ← Runtime.new_uuid
    lift (
        check_report (record {
          report_id = id;
          trace_id = state.trace_id;
          agent_name = agent.agent_name;
          command_id = none;
          status = status;
          summary = artifacts.summary;
          emitted_commands = artifacts.commands;
          emitted_memories = artifacts.memories;
          metrics = artifacts.metrics;
          started_at = started_at;
          finished_at = finished;
        }))

abbrev optional : {S A : Type 0} → Option A → (A → Exec S (Unit {0})) → Exec S (Unit {0})
optional none f = pure tt
optional (some a) f = f a

unfoldable pub persist_outputs : AgentArtifacts → Exec GestaltBlackboard (Unit {0})
unfolding write_memory write_command write_stats_report write_audit_report
    write_optimization_proposal
persist_outputs artifacts = do
  for_each artifacts.memories (λ m. do write_memory m; pure tt)
  for_each artifacts.commands (λ c. do write_command c; pure tt)
  optional artifacts.stats_report (λ r. do write_stats_report r; pure tt)
  optional artifacts.audit_report (λ r. do write_audit_report r; pure tt)
  for_each artifacts.optimization_proposals (λ p. do write_optimization_proposal p; pure tt)

-- The health snapshots of a stats report, written into the statistics one by one.
unfoldable pub set_health : List AgentHealthSnapshot → GestaltStats → GestaltStats
unfolding set_agent_health
set_health [] s = s
set_health (h ∷ hs) s = set_health hs (set_agent_health h.agent_name h.status s)

unfoldable pub merge_stats : Option GestaltStatsReport → GestaltStats → GestaltStats
unfolding set_health
merge_stats none s = s
merge_stats (some r) s = set_health r.agent_health (record s {
  load_level = r.load_level;
  performance_tier = r.performance_tier;
  cost_efficiency_score = r.cost_efficiency_score;
  security_risk_score = r.security_risk_score;
  gestalt_cohesion_score = r.gestalt_cohesion_score;
})

-- b if a is None else a
abbrev pub or_else : {A : Type 0} → Option A → Option A → Option A
or_else none b = b
or_else (some a) b = some a

abbrev pub to_list : {A : Type 0} → Option A → List A
to_list none = []
to_list (some a) = a ∷ []

unfoldable pub apply_state_update :
    GestaltGraphState
    → List GestaltMessage
    → AgentArtifacts
    → AgentExecutionReport
    → GestaltGraphState
unfolding merge_stats
apply_state_update state messages artifacts report = record state {
  messages = state.messages ++ messages;
  commands = state.commands ++ artifacts.commands;
  memories = state.memories ++ artifacts.memories;
  decisions = state.decisions ++ artifacts.decisions;
  execution_reports = state.execution_reports ++ report ∷ [];
  optimization_proposals = state.optimization_proposals ++ artifacts.optimization_proposals;
  audit_reports = state.audit_reports ++ to_list artifacts.audit_report;
  latest_summary = or_else artifacts.latest_summary state.latest_summary;
  stats = merge_stats artifacts.stats_report state.stats;
  metadata = Dict.update state.metadata artifacts.metadata_updates;
}
