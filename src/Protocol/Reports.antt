-- ===== src/Protocol/Reports.antt =====
-- The reports and the graph state of gestalt/protocol.py.
use gestalt_agentic_software.Prelude.{String, Bool, Option, List}
use gestalt_agentic_software.Prelude.Int.{ℤ}
use gestalt_agentic_software.Python.Dict.{Dict}
use gestalt_agentic_software.Python.Values.{Float}
use gestalt_agentic_software.Stats.Levels.{LoadLevel, PerformanceTier}
use gestalt_agentic_software.Stats.Model.{GestaltStats}
use gestalt_agentic_software.Protocol.Enums.{
  GestaltEventType, DecisionConfidence, CommandStatus, AgentDecision, SchedulerSource,
}
use gestalt_agentic_software.Protocol.Models.{
  Uuid, Datetime, Metadata, AuditFinding, AgentHealthSnapshot, GestaltMessage, GestaltCommand,
  GestaltCommandResult, GestaltSummary, BlackboardMemoryRecord,
}

pub record GestaltStatsReport : Type 0 where
  pub report_id : Uuid
  pub trace_id : Uuid
  pub collected_by : String
  pub load_level : LoadLevel
  pub performance_tier : PerformanceTier
  pub cost_efficiency_score : ℤ
  pub security_risk_score : ℤ
  pub gestalt_cohesion_score : ℤ
  pub queue_depth : ℤ
  pub active_cycles : ℤ
  pub failure_ratio : Float
  pub p95_latency_ms : Float
  pub agent_health : List AgentHealthSnapshot
  pub captured_at : Datetime

pub record AgentExecutionReport : Type 0 where
  pub report_id : Uuid
  pub trace_id : Uuid
  pub agent_name : String
  pub command_id : Option Uuid
  pub status : CommandStatus
  pub summary : String
  pub emitted_commands : List GestaltCommand
  pub emitted_memories : List BlackboardMemoryRecord
  pub metrics : Dict String Float
  pub started_at : Datetime
  pub finished_at : Datetime

pub record OptimizationProposal : Type 0 where
  pub proposal_id : Uuid
  pub trace_id : Uuid
  pub title : String
  pub summary : String
  pub expected_benefit : String
  pub config_patch : Metadata
  pub prompt_overrides : Dict String String
  pub model_routing_overrides : Dict String String
  pub confidence : DecisionConfidence
  pub created_at : Datetime

pub record GestaltAuditReport : Type 0 where
  pub report_id : Uuid
  pub trace_id : Uuid
  pub audited_by : String
  pub scope : List String
  pub findings : List AuditFinding
  pub remediation_commands : List GestaltCommand
  pub overall_risk_score : ℤ
  pub created_at : Datetime

pub record EventApproval : Type 0 where
  pub approval_id : Uuid
  pub trace_id : Uuid
  pub source_agent : String
  pub target_agent : String
  pub permitted_event : GestaltEventType
  pub rationale : String
  pub expires_at : Datetime

pub record AgentContextEnvelope : Type 0 where
  pub trace_id : Uuid
  pub cycle_id : Uuid
  pub objective : String
  pub source : SchedulerSource
  pub latest_stats : GestaltStats
  pub blackboard_context : List BlackboardMemoryRecord
  pub inbound_commands : List GestaltCommand
  pub approvals : List EventApproval
  pub metadata : Metadata

pub record GestaltGraphState : Type 0 where
  pub trace_id : Uuid
  pub cycle_id : Uuid
  pub source : SchedulerSource
  pub objective : String
  pub stats : GestaltStats
  pub decisions : List AgentDecision
  pub messages : List GestaltMessage
  pub commands : List GestaltCommand
  pub command_results : List GestaltCommandResult
  pub memories : List BlackboardMemoryRecord
  pub optimization_proposals : List OptimizationProposal
  pub audit_reports : List GestaltAuditReport
  pub execution_reports : List AgentExecutionReport
  pub latest_summary : Option GestaltSummary
  pub approvals : List EventApproval
  pub metadata : Metadata

pub record CycleRequest : Type 0 where
  pub objective : String
  pub source : SchedulerSource
  pub metadata : Metadata

pub record CycleResponse : Type 0 where
  pub trace_id : Uuid
  pub cycle_id : Uuid
  pub accepted : Bool
  pub summary : Option GestaltSummary
  pub commands : List GestaltCommand

pub record TriggerAuditRequest : Type 0 where
  pub scope : List String
  pub metadata : Metadata
