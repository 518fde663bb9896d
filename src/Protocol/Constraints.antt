-- ===== src/Protocol/Constraints.antt =====
-- The constraints of gestalt/protocol.py on the models that the specialists make.
-- Field(ge=0.0, le=1.0)
use gestalt_agentic_software.Prelude.Int.{leb_ℤ, pos}
use gestalt_agentic_software.Protocol.Validation.{in_score_range, min_length}
use gestalt_agentic_software.Prelude.{Bool, ◌&&◌}
use gestalt_agentic_software.Python.Exec.{Result, validated}
use gestalt_agentic_software.Python.Values.{Float}
use gestalt_agentic_software.Protocol.Reports.{
  GestaltAuditReport, OptimizationProposal, GestaltStatsReport,
}
use gestalt_agentic_software.Protocol.Models.{
  AuditEvidence, AuditFinding, BlackboardRelation, RemediationInstruction, AgentHealthSnapshot,
}
use gestalt_agentic_software.Python.Floats.{FloatOps, float_zero, float_one}

abbrev is_ratio : FloatOps → Float → Bool
is_ratio f x = f.le float_zero x && f.le x float_one

unfoldable pub check_evidence : AuditEvidence → Result AuditEvidence
check_evidence e = validated (min_length 1 e.source && min_length 1 e.description) e

unfoldable pub check_remediation : RemediationInstruction → Result RemediationInstruction
check_remediation r = validated (min_length 3 r.title && min_length 10 r.rationale) r

unfoldable pub check_finding : AuditFinding → Result AuditFinding
check_finding f = validated (min_length 8 f.summary && min_length 16 f.detail) f

unfoldable pub check_relation : BlackboardRelation → Result BlackboardRelation
check_relation r =
    validated
      (min_length 2 r.source_type
        && min_length 1 r.source_id
        && min_length 2 r.relation_type
        && min_length 2 r.target_type
        && min_length 1 r.target_id)
      r

unfoldable pub check_proposal : OptimizationProposal → Result OptimizationProposal
check_proposal p =
    validated (min_length 5 p.title && min_length 12 p.summary && min_length 8 p.expected_benefit) p

unfoldable pub check_audit_report : GestaltAuditReport → Result GestaltAuditReport
check_audit_report r = validated (in_score_range r.overall_risk_score) r

unfoldable pub check_health : FloatOps → AgentHealthSnapshot → Result AgentHealthSnapshot
check_health f h =
    validated
      (min_length 2 h.agent_name && is_ratio f h.error_rate && f.le float_zero h.avg_latency_ms) h

unfoldable pub check_stats_report : FloatOps → GestaltStatsReport → Result GestaltStatsReport
check_stats_report f r =
    validated
      (in_score_range r.security_risk_score
        && in_score_range r.cost_efficiency_score
        && in_score_range r.gestalt_cohesion_score
        && leb_ℤ (pos 0) r.queue_depth
        && leb_ℤ (pos 0) r.active_cycles
        && is_ratio f r.failure_ratio
        && f.le float_zero r.p95_latency_ms)
      r
