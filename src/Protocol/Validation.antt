-- ===== src/Protocol/Validation.antt =====
-- The constraints that gestalt/protocol.py puts on the fields of its models: `Field(min_length=…)`,
-- `Field(ge=…)`, and the validators of `AgentExecutionReport` and `EventApproval`.
use gestalt_agentic_software.Python.Exec.{
  Result, raised, validated, ok, raise_with, validation_error,
}
use gestalt_agentic_software.Protocol.Reports.{
  AgentContextEnvelope, AgentExecutionReport, EventApproval,
}
use gestalt_agentic_software.Protocol.Models.{
  BlackboardMemoryRecord, BlackboardQuery, GestaltCommand, GestaltMessage, GestaltSummary, Datetime,
}
use gestalt_agentic_software.Prelude.Int.{ℤ, leb_ℤ, pos}
use gestalt_agentic_software.Prelude.{
  ℕ, Bool, String, if◌then◌else◌, leb, not, str_len, ◌&&◌, false, ltb,
}

-- Field(min_length=n)
abbrev pub min_length : ℕ → String → Bool
min_length n s = leb n (str_len s)

-- Field(ge=0, le=100)
abbrev pub in_score_range : ℤ → Bool
in_score_range z = leb_ℤ (pos 0) z && leb_ℤ z (pos 100)

unfoldable pub check_message : GestaltMessage → Result GestaltMessage
check_message m =
    validated (min_length 2 m.sender && min_length 2 m.recipient && min_length 1 m.content) m

unfoldable pub check_command : GestaltCommand → Result GestaltCommand
check_command c =
    validated (min_length 2 c.issued_by && min_length 2 c.target_agent && min_length 8 c.rationale)
      c

unfoldable pub check_summary : GestaltSummary → Result GestaltSummary
check_summary s =
    validated
      (min_length 3 s.objective
        && in_score_range s.cohesion_score
        && in_score_range s.security_risk_score)
      s

unfoldable pub check_memory : BlackboardMemoryRecord → Result BlackboardMemoryRecord
check_memory r = validated (min_length 3 r.title && min_length 1 r.content) r

unfoldable pub check_query : BlackboardQuery → Result BlackboardQuery
check_query q = validated (min_length 1 q.query && leb 1 q.limit && leb q.limit 100) q

unfoldable pub check_envelope : AgentContextEnvelope → Result AgentContextEnvelope
check_envelope e = validated (min_length 3 e.objective) e

-- `validate_timing`, after the constraints on the fields
unfoldable pub check_report : AgentExecutionReport → Result AgentExecutionReport
check_report r =
    if not (min_length 2 r.agent_name && min_length 8 r.summary)
    then validated false r
    else if ltb r.finished_at.instant r.started_at.instant
    then raise_with validation_error "finished_at must be greater than or equal to started_at"
    else ok r

-- `ensure_future_expiry`, with the reading of the clock that it makes
unfoldable pub ensure_future_expiry : ℕ → Datetime → Result Datetime
ensure_future_expiry now value =
    if not value.aware
    then raise_with validation_error "expires_at must be timezone aware"
    else if leb value.instant now
    then raise_with validation_error "expires_at must be in the future"
    else ok value

unfoldable pub check_approval : ℕ → EventApproval → Result EventApproval
unfolding ensure_future_expiry
check_approval now a = elim (ensure_future_expiry now a.expires_at) [
  | raised e ↦ raised e
  | ok _ ↦
      validated
        (min_length 2 a.source_agent && min_length 2 a.target_agent && min_length 8 a.rationale) a
]
