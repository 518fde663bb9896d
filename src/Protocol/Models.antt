-- ===== src/Protocol/Models.antt =====
-- The models of gestalt/protocol.py that the agents exchange, with all their fields. A UUID is a
-- number; the constraints on the fields are in `Protocol.Validation`.
use gestalt_agentic_software.Prelude.{ℕ, String, Bool, Option, List}
use gestalt_agentic_software.Prelude.Int.{ℤ}
use gestalt_agentic_software.Python.Dict.{Dict}
use gestalt_agentic_software.Python.Values.{Value, Float}
use gestalt_agentic_software.Stats.Levels.{AgentHealth}
use gestalt_agentic_software.Protocol.Enums.{
  GestaltMessageRole, GestaltCommandType, GestaltEventType, AuditSeverity, AuditCategory,
  DecisionConfidence, CommandStatus, MemoryKind, BlackboardQueryMode, AgentDecision, Priority,
}

abbrev pub Uuid : Type 0
Uuid = ℕ

-- A point in time, in microseconds, and whether it carries a time zone.
pub record Datetime : Type 0 where
  pub instant : ℕ
  pub aware : Bool

abbrev pub Metadata : Type 0
Metadata = Dict String Value

pub record AuditEvidence : Type 0 where
  pub source : String
  pub description : String
  pub reference : Option String
  pub metadata : Metadata

pub record RemediationInstruction : Type 0 where
  pub instruction_id : Uuid
  pub command_type : GestaltCommandType
  pub title : String
  pub rationale : String
  pub priority : Priority
  pub payload : Metadata

pub record AuditFinding : Type 0 where
  pub finding_id : Uuid
  pub category : AuditCategory
  pub severity : AuditSeverity
  pub summary : String
  pub detail : String
  pub evidence : List AuditEvidence
  pub remediation : List RemediationInstruction
  pub hypothesis_id : Option String

pub record AgentHealthSnapshot : Type 0 where
  pub agent_name : String
  pub status : AgentHealth
  pub last_success_at : Option Datetime
  pub last_failure_at : Option Datetime
  pub error_rate : Float
  pub avg_latency_ms : Float

pub record GestaltMessage : Type 0 where
  pub message_id : Uuid
  pub trace_id : Uuid
  pub causation_id : Option Uuid
  pub role : GestaltMessageRole
  pub sender : String
  pub recipient : String
  pub content : String
  pub metadata : Metadata
  pub created_at : Datetime

pub record GestaltCommand : Type 0 where
  pub command_id : Uuid
  pub trace_id : Uuid
  pub causation_id : Option Uuid
  pub command_type : GestaltCommandType
  pub issued_by : String
  pub target_agent : String
  pub rationale : String
  pub payload : Metadata
  pub confidence : DecisionConfidence
  pub status : CommandStatus
  pub created_at : Datetime

pub record GestaltCommandResult : Type 0 where
  pub command_id : Uuid
  pub trace_id : Uuid
  pub status : CommandStatus
  pub output : Metadata
  pub error_message : Option String
  pub completed_at : Datetime

pub record GestaltSummary : Type 0 where
  pub cycle_id : Uuid
  pub trace_id : Uuid
  pub objective : String
  pub completed_actions : List String
  pub pending_actions : List String
  pub decisions : List AgentDecision
  pub cohesion_score : ℤ
  pub security_risk_score : ℤ
  pub produced_at : Datetime

pub record GestaltEvent : Type 0 where
  pub event_id : Uuid
  pub trace_id : Uuid
  pub approval_id : Option Uuid
  pub event_type : GestaltEventType
  pub source_agent : String
  pub target_agent : Option String
  pub payload : Metadata
  pub created_at : Datetime

pub record BlackboardMemoryRecord : Type 0 where
  pub record_id : Uuid
  pub trace_id : Uuid
  pub memory_kind : MemoryKind
  pub title : String
  pub content : String
  pub tags : List String
  pub embedding : Option (List Float)
  pub metadata : Metadata
  pub created_at : Datetime

pub record BlackboardRelation : Type 0 where
  pub relation_id : Uuid
  pub source_type : String
  pub source_id : String
  pub relation_type : String
  pub target_type : String
  pub target_id : String
  pub metadata : Metadata

pub record BlackboardQuery : Type 0 where
  pub query : String
  pub mode : BlackboardQueryMode
  pub limit : ℕ
  pub filters : Metadata

pub record BlackboardQueryResult : Type 0 where
  pub query : BlackboardQuery
  pub matches : List BlackboardMemoryRecord
  pub relations : List BlackboardRelation
  pub latency_ms : Float
