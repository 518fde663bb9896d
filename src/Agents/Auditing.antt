-- ===== src/Agents/Auditing.antt =====
-- The audit of gestalt/agents/security_audit.py changes the services in the way of its tools.
use gestalt_agentic_software.Agents.Plain.{checked-Behaves}
use gestalt_agentic_software.Tools.Effects.{AreTame}
use gestalt_agentic_software.Tools.Outputs.{ToolInput, ToolOutput}
use gestalt_agentic_software.Graph.Specialist.{IsPlain}
use gestalt_agentic_software.Tools.Registry.{ToolRegistry}
use gestalt_agentic_software.Tools.Fields.{Coercions}
use gestalt_agentic_software.BaseAgent.ServicesRun.{
  make_command-Runs, complete_structured-Runs, make_memory-Runs, query_prometheus-Runs,
  query_blackboard-Runs, inspect_redis_stream-Runs,
}
use gestalt_agentic_software.Prelude.Int.{ℤ}
use gestalt_agentic_software.Protocol.Constraints.{check_evidence, check_finding}
use gestalt_agentic_software.Agents.SecurityAudit.{
  make_audit_report, remediation_commands, audit_artifacts, SecurityAuditReasoning,
  audit_artifacts_of,
}
use gestalt_agentic_software.Protocol.Models.{
  AuditEvidence, AuditFinding, RemediationInstruction, GestaltCommand,
}
use gestalt_agentic_software.Protocol.Reports.{
  GestaltAuditReport, GestaltGraphState, AgentContextEnvelope,
}
use gestalt_agentic_software.Python.Values.{Float}
use gestalt_agentic_software.BaseAgent.Behaves.{
  Runs, pure-Runs, then-Behaves, lift-Runs, Behaves, new_uuid-Runs, IsStep,
}
use gestalt_agentic_software.Runtime.{Host, World}
use gestalt_agentic_software.Prelude.{
  Bool, List, Option, String, arith, [], ◌∷◌, false, some, true, ◌++◌, none, ℕ, refl,
}
use gestalt_agentic_software.Protocol.Enums.{AuditCategory, AuditSeverity}
use gestalt_agentic_software.Config.{GestaltSettings}
use gestalt_agentic_software.Agents.AuditRules.{
  error_finding, failure_finding, history_finding, make_finding, make_remediation, audit_findings,
}
use gestalt_agentic_software.Runtime

module _ {R : World → World → Type 0} (laws : IsStep R) where
  finding-Runs :
      (category : AuditCategory) (severity : AuditSeverity) (summary detail : String)
      (evidence : AuditEvidence) (remediation : List RemediationInstruction)
      → Runs R (make_finding category severity summary detail evidence remediation)
  unfolding make_finding
  finding-Runs category severity summary detail evidence remediation =
      then-Behaves laws _ _ _ (lift-Runs laws (check_evidence evidence)) λ checked.
        then-Behaves laws _ (Runtime.on_world Runtime.new_uuid) _ (new_uuid-Runs laws) λ id.
          lift-Runs laws (
            check_finding (record {
              finding_id = id;
              category = category;
              severity = severity;
              summary = summary;
              detail = detail;
              evidence = checked ∷ [];
              remediation = remediation;
              hypothesis_id = none;
            }))

  remediation-Runs : (error : String) → Runs R (make_remediation error)
  unfolding make_remediation Runtime.new_uuid
  remediation-Runs error = record {
    goes = λ s. laws.quiet s.world _ (record { later = omega arith; memory = λ m. m }) refl;
    gives = λ s b e. tt;
  }

  failure-Runs : (error : Option String) → Runs R (failure_finding error)
  unfolding failure_finding
  failure-Runs none = pure-Runs laws []
  failure-Runs (some error) =
      then-Behaves laws _ _ _ (remediation-Runs error)
        λ i. then-Behaves laws _ _ _ (finding-Runs _ _ _ _ _ _) λ x. pure-Runs laws (x ∷ [])

  error-Runs : (critical : Bool) (value : Float) → Runs R (error_finding critical value)
  unfolding error_finding
  error-Runs false value = pure-Runs laws []
  error-Runs true value =
      then-Behaves laws _ _ _ (finding-Runs _ _ _ _ _ _) λ x. pure-Runs laws (x ∷ [])

  history-Runs : (reports : List GestaltAuditReport) → Runs R (history_finding reports)
  unfolding history_finding
  history-Runs [] = pure-Runs laws []
  history-Runs (r ∷ rs) =
      then-Behaves laws _ _ _ (finding-Runs _ _ _ _ _ _) λ x. pure-Runs laws (x ∷ [])

  module _ (settings : GestaltSettings) (host : Host) (state : GestaltGraphState) where
    findings-Runs : (ratio : Float) → Runs R (audit_findings settings host state ratio)
    unfolding audit_findings
    findings-Runs ratio = then-Behaves laws _ _ _ (failure-Runs _) λ a.
        then-Behaves laws _ _ _ (error-Runs _ _)
          λ b. then-Behaves laws _ _ _ (history-Runs _) λ c. pure-Runs laws (a ++ b ++ c)

    remediation_commands-Runs :
        (findings : List AuditFinding) (risk : ℤ)
        → Runs R (remediation_commands settings host state findings risk)
    unfolding remediation_commands
    remediation_commands-Runs [] risk = pure-Runs laws []
    remediation_commands-Runs (x ∷ xs) risk =
        then-Behaves laws _ _ _ (make_command-Runs laws host state.trace_id _ _ _ _ _)
          λ c. pure-Runs laws (c ∷ [])

    audit_report-Runs :
        (findings : List AuditFinding) (commands : List GestaltCommand) (risk : ℤ)
        → Runs R (make_audit_report settings host state findings commands risk)
    unfolding make_audit_report Runtime.new_uuid Runtime.utc_now
    audit_report-Runs findings commands risk = record {
      goes = λ s. laws.quiet s.world _ (record { later = omega arith; memory = λ m. m }) refl;
      gives = λ s b e. tt;
    }

    module _ (coercions : Coercions) (tools : ToolRegistry World ToolInput ToolOutput)
        (tame : AreTame R tools) (context : AgentContextEnvelope) where
      pub security_audit-Behaves :
          Behaves R IsPlain (audit_artifacts settings host coercions tools context state)
      unfolding audit_artifacts
      security_audit-Behaves =
          then-Behaves laws IsPlain _ _
            (query_blackboard-Runs laws settings host "security_audit" tools tame state _ 5 [])
            λ related.
              then-Behaves laws IsPlain _ _
                (inspect_redis_stream-Runs laws settings host "security_audit" tools tame state _
                  10)
                λ stream.
                  then-Behaves laws IsPlain _ _
                    (query_prometheus-Runs laws settings host "security_audit" tools tame state _)
                    λ errors. then-Behaves laws IsPlain _ _ (findings-Runs _) λ findings.
                      then-Behaves laws IsPlain _ _
                        (complete_structured-Runs laws settings host "security_audit" _ _ _ _ _)
                        λ reasoning. artifacts_of findings _ reasoning
        where
          artifacts_of :
              (findings : List AuditFinding) (related : ℕ) (reasoning : SecurityAuditReasoning)
              → Behaves R IsPlain (
                  audit_artifacts_of settings host coercions tools state findings related reasoning)
          artifacts_of findings related reasoning =
              unfold audit_artifacts_of in
              then-Behaves laws IsPlain _ _ (remediation_commands-Runs findings _) λ commands.
                then-Behaves laws IsPlain _ _ (audit_report-Runs findings commands _) λ report.
                  then-Behaves laws IsPlain _ _
                    (make_memory-Runs laws host state.trace_id _ _ _ _ _)
                    λ memory. checked-Behaves laws _ refl refl
