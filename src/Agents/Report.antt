-- ===== src/Agents/Report.antt =====
-- What the report of gestalt/agents/security_audit.py holds.
use gestalt_agentic_software.Tools.Outputs.{ToolInput, ToolOutput}
use gestalt_agentic_software.Python.Returns.{Returns, bind-Returns, lift-Returns}
use gestalt_agentic_software.Agents.Findings.{Finds}
use gestalt_agentic_software.Tools.Registry.{ToolRegistry}
use gestalt_agentic_software.Protocol.Validation.{
  check_memory, check_command, in_score_range, min_length,
}
use gestalt_agentic_software.Protocol.Constraints.{check_audit_report}
use gestalt_agentic_software.Tools.Fields.{Coercions}
use gestalt_agentic_software.BaseAgent.Make.{make_memory, make_command}
use gestalt_agentic_software.Agents.SecurityAudit.{
  make_audit_report, remediation_commands, SecurityAuditReasoning, audit_artifacts_of,
}
use gestalt_agentic_software.Python.Exec.{validated, ok, Result}
use gestalt_agentic_software.BaseAgent.Artifacts.{AgentArtifacts, check_artifacts}
use gestalt_agentic_software.Protocol.Reports.{GestaltGraphState, GestaltAuditReport}
use gestalt_agentic_software.Prelude.Int.{ℤ}
use gestalt_agentic_software.Protocol.Enums.{AuditCategory, GestaltCommandType, MemoryKind}
use gestalt_agentic_software.Protocol.Models.{
  AuditFinding, GestaltCommand, Metadata, BlackboardMemoryRecord,
}
use gestalt_agentic_software.Config.{GestaltSettings}
use gestalt_agentic_software.Runtime.{Session, Host, World}
use gestalt_agentic_software.Prelude.{
  Bool, List, ◌+◌, ◌≡◌, true, ◌∷◌, [], String, false, some, refl, ap, ℕ, ◌≤◌, str_len, le→leb,
  arith, sym,
}
use mathlib.Core.Path.{subst}
use gestalt_agentic_software.Runtime

-- The commands answer the findings: none without a finding, and else one that asks the orchestrator to
-- remediate.
abbrev pub Remediates : List AuditFinding → List GestaltCommand → Type 0
Remediates [] commands = commands ≡ []
Remediates (f ∷ fs) commands =
    (c : GestaltCommand) × (commands ≡ c ∷ [])
    × (c.target_agent ≡ "orchestrator")
    × (c.command_type ≡ GestaltCommandType.remediate)

-- The artifacts hold a report with what the rules call for and the score of the answer.
pub record IsVerdict (called : List AuditCategory) (risk : ℤ) (a : AgentArtifacts) : Type 0 where
  pub report : GestaltAuditReport
  pub reported : a.audit_report ≡ some report
  pub finds : Finds called report.findings
  pub score : report.overall_risk_score ≡ risk
  pub same_commands : a.commands ≡ report.remediation_commands
  pub remediates : Remediates report.findings a.commands

-- The session after a reading of the clock and a new UUID.
abbrev drawn : Session → Session
drawn s = record s {
  world = record s.world { ticks = s.world.ticks + 1; uuids = s.world.uuids + 1 };
}

validated-eq : {A : Type 0} (b : Bool) (a : A) → b ≡ true → validated b a ≡ ok a
validated-eq true a h = refl
validated-eq false a h = cc

module _ (settings : GestaltSettings) (host : Host) (state : GestaltGraphState) where
  remediation-Returns :
      (findings : List AuditFinding) (risk : ℤ) (s : Session)
      → Returns
          (remediation_commands settings host state findings risk)
          s
          (λ cs t. Remediates findings cs)
  unfolding remediation_commands make_command check_command Runtime.utc_now Runtime.new_uuid
  remediation-Returns [] risk s = record { value = []; final = s; eq = refl; holds = refl }
  remediation-Returns (f ∷ fs) risk s = record {
    value = _;
    final = _;
    eq = refl;
    holds = (_, refl, refl, refl);
  }

  report-Returns :
      (findings : List AuditFinding) (commands : List GestaltCommand) (risk : ℤ) (s : Session)
      → in_score_range risk ≡ true
      → Returns (make_audit_report settings host state findings commands risk) s (λ r t.
        (r.findings ≡ findings)
        × (r.remediation_commands ≡ commands)
        × (r.overall_risk_score ≡ risk))
  unfolding make_audit_report check_audit_report Runtime.utc_now Runtime.new_uuid
  report-Returns findings commands risk s range = record {
    value = _;
    final = _;
    eq = ap (λ (r : Result GestaltAuditReport). (r, drawn s)) (validated-eq _ _ range);
    holds = (refl, refl, refl);
  }

  memory-Returns :
      (content : String) (tags : List String) (metadata : Metadata) (s : Session)
      → min_length 1 content ≡ true
      → Returns
          (make_memory host state.trace_id MemoryKind.audit "Security audit report summary" content
            tags metadata)
          s
          (λ m t. Unit)
  unfolding make_memory check_memory Runtime.utc_now Runtime.new_uuid
  memory-Returns content tags metadata s long = record {
    value = _;
    final = _;
    eq = ap (λ (r : Result BlackboardMemoryRecord). (r, drawn s)) (validated-eq _ _ long);
    holds = tt;
  }

  module _ (coercions : Coercions) (tools : ToolRegistry World ToolInput ToolOutput) (related : ℕ)
      (reasoning : SecurityAuditReasoning) (long : 24 ≤ str_len reasoning.summary)
      (range : in_score_range reasoning.overall_risk_score ≡ true) where
    pub artifacts-Returns :
        (called : List AuditCategory) (findings : List AuditFinding) (s : Session)
        → Finds called findings
        → Returns
            (audit_artifacts_of settings host coercions tools state findings related reasoning)
            s
            (λ a t. IsVerdict called reasoning.overall_risk_score a)
    unfolding audit_artifacts_of check_artifacts
    artifacts-Returns called findings s finds =
        bind-Returns _ _ _ _ s (remediation-Returns findings reasoning.overall_risk_score s)
          λ commands t remediates.
            bind-Returns _ _ _ _ t
              (report-Returns findings commands reasoning.overall_risk_score t range)
              λ report u same.
                bind-Returns _ _ _ _ u
                  (memory-Returns reasoning.summary _ _ u (le→leb 1 _ (omega (arith, long))))
                  λ memory v _.
                    lift-Returns _ _ _ v (validated-eq _ _ (le→leb 8 _ (omega (arith, long))))
                      (record {
                        report = report;
                        reported = refl;
                        finds = subst (Finds called) (sym same.0) finds;
                        score = same.2;
                        same_commands = sym same.1;
                        remediates = subst (λ fs. Remediates fs commands) (sym same.0) remediates;
                      })
