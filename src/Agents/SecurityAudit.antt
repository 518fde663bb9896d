-- ===== src/Agents/SecurityAudit.antt =====
-- gestalt/agents/security_audit.py
use gestalt_agentic_software.Agents.AuditRules.{audit_findings, overall_risk}
use gestalt_agentic_software.Agents.Prompts.{security_audit_prompt}
use gestalt_agentic_software.BaseAgent.Artifacts.{
  Agent, AgentArtifacts, check_artifacts, summary_only,
}
use gestalt_agentic_software.Tools.Outputs.{ToolInput, ToolOutput}
use gestalt_agentic_software.Tools.Registry.{ToolRegistry}
use gestalt_agentic_software.BaseAgent.Make.{make_command, make_memory}
use gestalt_agentic_software.Protocol.Enums.{GestaltCommandType, MemoryKind}
use gestalt_agentic_software.Runtime.{Host, Session, World}
use gestalt_agentic_software.Python.Values.{str, int, Float}
use gestalt_agentic_software.Python.Exec.{Exec, Result, pure, ◌>>=◌, lift, ok}
use gestalt_agentic_software.Protocol.Reports.{
  GestaltAuditReport, GestaltGraphState, AgentContextEnvelope,
}
use gestalt_agentic_software.Config.{GestaltSettings}
use gestalt_agentic_software.Protocol.Constraints.{check_audit_report}
use gestalt_agentic_software.Prelude.Int.{ℤ, pos}
use gestalt_agentic_software.Protocol.Models.{Metadata, AuditFinding, GestaltCommand}
use gestalt_agentic_software.Tools.Fields.{model, long_text, Coercions, required_int, and_then}
use gestalt_agentic_software.Prelude.{List, String, some, ℕ, ◌∷◌, [], ◌+++◌, length}
use gestalt_agentic_software.BaseAgent.Services
use gestalt_agentic_software.Runtime
use gestalt_agentic_software.Python.Dict.{string_key}

pub record SecurityAuditReasoning : Type 0 where
  pub summary : String
  pub overall_risk_score : ℤ

unfoldable pub audit_reasoning : Coercions → Metadata → Result SecurityAuditReasoning
unfolding model long_text required_int
audit_reasoning c payload = model ("summary" ∷ "overall_risk_score" ∷ []) payload (
    and_then (long_text payload "summary" 24) λ s.
      and_then (required_int c payload "overall_risk_score" (pos 0) (pos 100))
        λ z. ok (record { summary = s; overall_risk_score = z }))

module _ (settings : GestaltSettings) (host : Host) where
  unfoldable pub remediation_commands :
      GestaltGraphState → List AuditFinding → ℤ → Exec Session (List GestaltCommand)
  remediation_commands state [] risk = pure []
  remediation_commands state (x ∷ xs) risk = do
    command ←
        make_command host state.trace_id GestaltCommandType.remediate "security_audit"
          "orchestrator"
          "Security audit produced remediation guidance that the orchestrator must evaluate."
          (("finding_count", int (pos (length (x ∷ xs)))) ∷ ("risk_score", int risk) ∷ [])
    pure (command ∷ [])

  unfoldable pub make_audit_report :
      GestaltGraphState
      → List AuditFinding
      → List GestaltCommand
      → ℤ
      → Exec Session GestaltAuditReport
  unfolding check_audit_report Runtime.utc_now Runtime.new_uuid
  make_audit_report state findings commands risk = do
    id ← Runtime.on_world Runtime.new_uuid
    now ← Runtime.on_world (Runtime.utc_now host)
    lift (
        check_audit_report (record {
          report_id = id;
          trace_id = state.trace_id;
          audited_by = "security_audit";
          scope = "graph_state" ∷ "blackboard" ∷ "event_bus" ∷ "telemetry" ∷ [];
          findings = findings;
          remediation_commands = commands;
          overall_risk_score = risk;
          created_at = now;
        }))

  module _ (coercions : Coercions) (tools : ToolRegistry World ToolInput ToolOutput) where
    abbrev pub audit_payload : GestaltGraphState → ℕ → ℕ → Metadata
    audit_payload state findings entries =
        (
          "summary",
          str (
              "Security audit inspected graph state, blackboard context, and event-bus hygiene; "
              +++ "it found "
              +++ host.int_text (pos findings)
              +++ " finding(s) while Redis inspection returned "
              +++ host.int_text (pos entries)
              +++ " entries."),
        )
        ∷ ("overall_risk_score", int (overall_risk state.stats.security_risk_score findings))
        ∷ []

    -- What follows from the model's answer.
    unfoldable pub audit_artifacts_of :
        GestaltGraphState
        → List AuditFinding
        → ℕ
        → SecurityAuditReasoning
        → Exec Session AgentArtifacts
    audit_artifacts_of state findings related reasoning = do
      commands ← remediation_commands state findings reasoning.overall_risk_score
      report ← make_audit_report state findings commands reasoning.overall_risk_score
      memory ←
          make_memory host state.trace_id MemoryKind.audit "Security audit report summary"
            reasoning.summary
            ("security" ∷ "audit" ∷ host.int_text reasoning.overall_risk_score ∷ [])
            (("finding_count", int (pos (length findings)))
              ∷ ("related_memories", int (pos related))
              ∷ [])
      lift (
          check_artifacts (record (summary_only reasoning.summary) {
            commands = commands;
            memories = memory ∷ [];
            audit_report = some report;
            metrics = ("overall_risk_score", host.floats.of_int reasoning.overall_risk_score) ∷ [];
          }))

    -- What follows once the tools have answered; `ask` is the call of the model.
    unfoldable pub conclude :
        GestaltGraphState
        → Float
        → ℕ
        → (List AuditFinding → Exec Session SecurityAuditReasoning)
        → Exec Session AgentArtifacts
    conclude state ratio related ask = do
      findings ← audit_findings settings host state ratio
      reasoning ← ask findings
      audit_artifacts_of state findings related reasoning

    unfoldable pub audit_artifacts :
        AgentContextEnvelope → GestaltGraphState → Exec Session AgentArtifacts
    unfolding conclude
    audit_artifacts context state = do
      related ←
          Services.query_blackboard settings host "security_audit" tools state "audit security risk"
            5 []
      stream ←
          Services.inspect_redis_stream settings host "security_audit" tools state
            settings.events.stream_name 10
      errors ← Services.query_prometheus settings host "security_audit" tools state "error_ratio"
      conclude state errors.value (length related.matches) λ findings.
          Services.complete_structured settings host "security_audit" (audit_reasoning coercions)
            security_audit_prompt ("Audit objective: " +++ context.objective) state.stats
            (audit_payload state (length findings) (length stream.entries))

    unfoldable pub security_audit_agent : Agent
    unfolding audit_artifacts
    security_audit_agent = record {
      agent_name = "security_audit";
      system_prompt = security_audit_prompt;
      produce_artifacts = λ context messages state. audit_artifacts context state;
    }
