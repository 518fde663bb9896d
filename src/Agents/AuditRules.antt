-- ===== src/Agents/AuditRules.antt =====
-- The rules of gestalt/agents/security_audit.py: its findings and its risk.
use gestalt_agentic_software.Protocol.Enums.{
  AuditCategory, AuditSeverity, GestaltCommandType, Priority,
}
use gestalt_agentic_software.Runtime.{Host, Session, World}
use gestalt_agentic_software.Python.Values.{Float, str, Value, int}
use gestalt_agentic_software.Python.Exec.{Exec, pure, ◌>>=◌, lift}
use gestalt_agentic_software.Protocol.Reports.{GestaltAuditReport, GestaltGraphState}
use gestalt_agentic_software.Config.{GestaltSettings}
use gestalt_agentic_software.Protocol.Constraints.{check_evidence, check_remediation, check_finding}
use gestalt_agentic_software.Prelude.Int.{ℤ, min_ℤ, pos, max_ℤ}
use gestalt_agentic_software.Protocol.Models.{
  Metadata, AuditFinding, RemediationInstruction, AuditEvidence,
}
use gestalt_agentic_software.Prelude.{
  Bool, List, Option, String, some, ℕ, false, if◌then◌else◌, str_eq, ◌∷◌, [], none, true, ◌*◌, ◌++◌,
  ◌+++◌, length,
}
use gestalt_agentic_software.Runtime
use gestalt_agentic_software.Python.Dict
use gestalt_agentic_software.Python.Dict.{Dict, string_key}

-- The last error of the metadata, if it is a text that is not empty.
unfoldable pub last_error : Metadata → Option String
last_error metadata = elim (Dict.get metadata "last_error") [
  | some (str s) ↦ if str_eq s "" then none else some s
  | _ ↦ none
]

-- Whether there are prior reports.
abbrev pub has_reports : List GestaltAuditReport → Bool
has_reports [] = false
has_reports (_ ∷ _) = true

-- min(100, max(state.stats.security_risk_score, len(findings) * 20))
unfoldable pub overall_risk : ℤ → ℕ → ℤ
overall_risk risk findings = min_ℤ (pos 100) (max_ℤ risk (pos (findings * 20)))

-- AuditFinding(…), with one piece of evidence
unfoldable pub make_finding :
    AuditCategory
    → AuditSeverity
    → String
    → String
    → AuditEvidence
    → List RemediationInstruction
    → Exec Session AuditFinding
unfolding check_evidence check_finding Runtime.new_uuid
make_finding category severity summary detail evidence remediation = do
  checked ← lift (check_evidence evidence)
  id ← Runtime.on_world Runtime.new_uuid
  lift (
      check_finding (record {
        finding_id = id;
        category = category;
        severity = severity;
        summary = summary;
        detail = detail;
        evidence = checked ∷ [];
        remediation = remediation;
        hypothesis_id = none;
      }))

unfoldable pub make_remediation : String → Exec Session RemediationInstruction
unfolding check_remediation Runtime.new_uuid
make_remediation error = do
  id ← Runtime.on_world Runtime.new_uuid
  lift (
      check_remediation (record {
        instruction_id = id;
        command_type = GestaltCommandType.analyze;
        title = "Analyze latest runtime failure";
        rationale = "A failed agent invocation can hide unsafe or inconsistent state.";
        priority = Priority.high;
        payload = ("last_error", str error) ∷ [];
      }))

unfoldable pub failure_finding : Option String → Exec Session (List AuditFinding)
failure_finding none = pure []
failure_finding (some error) = do
  instruction ← make_remediation error
  finding ←
      make_finding AuditCategory.tooling AuditSeverity.high "A recent agent invocation failed."
        ("The graph state captured a last_error marker and the failure should be analyzed: "
          +++ error)
        (record {
          source = "graph_state";
          description = "state.metadata.last_error";
          reference = none;
          metadata = ("last_error", str error) ∷ [];
        })
        (instruction ∷ [])
  pure (finding ∷ [])

unfoldable pub error_finding : Bool → Float → Exec Session (List AuditFinding)
error_finding false value = pure []
error_finding true value = do
  finding ←
      make_finding AuditCategory.observability AuditSeverity.medium
        "Error ratio crossed the critical threshold."
        "Observed error-rate telemetry indicates system instability that warrants remediation."
        (record {
          source = "prometheus_query";
          description = "critical error ratio signal";
          reference = none;
          metadata = ("error_ratio", Value.float value) ∷ [];
        })
        []
  pure (finding ∷ [])

unfoldable pub history_finding : List GestaltAuditReport → Exec Session (List AuditFinding)
history_finding [] = pure []
history_finding (r ∷ rs) = do
  finding ←
      make_finding AuditCategory.checkpoint AuditSeverity.info
        "Prior audit history exists for comparative analysis."
        "A previous audit report was found and can be used to track remediation progress."
        (record {
          source = "blackboard";
          description = "Existing audit reports found in current state.";
          reference = none;
          metadata = ("prior_reports", int (pos (length (r ∷ rs)))) ∷ [];
        })
        []
  pure (finding ∷ [])

module _ (settings : GestaltSettings) (host : Host) where
  -- float(error_metric.value) >= self.settings.stats.error_rate_thresholds.critical
  abbrev pub is_critical : Float → Bool
  is_critical value = host.floats.le settings.stats.error_rate_thresholds.critical value

  -- The three rules.
  unfoldable pub audit_findings : GestaltGraphState → Float → Exec Session (List AuditFinding)
  audit_findings state error_ratio = do
    failures ← failure_finding (last_error state.metadata)
    errors ← error_finding (is_critical error_ratio) error_ratio
    history ← history_finding state.audit_reports
    pure (failures ++ errors ++ history)
