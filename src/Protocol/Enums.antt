-- ===== src/Protocol/Enums.antt =====
-- The enumerations of gestalt/protocol.py.
use gestalt_agentic_software.Prelude.{Bool, true, false, ◌≡◌, ◌↔◌, arith}

pub data GestaltMessageRole : Type 0 where
  system user agent tool audit orchestrator : GestaltMessageRole

pub data GestaltCommandType : Type 0 where
  analyze execute optimize audit update_stats update_memory : GestaltCommandType
  approve_event remediate escalate halt : GestaltCommandType

pub data GestaltEventType : Type 0 where
  peer_signal command_published audit_alert stats_updated : GestaltEventType
  optimization_proposed incident_detected execution_progress : GestaltEventType

pub data AuditSeverity : Type 0 where
  info low medium high critical : AuditSeverity

pub data AuditCategory : Type 0 where
  prompt_injection hallucination permission blackboard event_bus checkpoint : AuditCategory
  tooling deadlock observability sandbox configuration cost : AuditCategory

pub data ToolExecutionMode : Type 0 where
  read_only mutating sandboxed : ToolExecutionMode

pub data DecisionConfidence : Type 0 where
  low medium high critical : DecisionConfidence

pub data CommandStatus : Type 0 where
  pending in_progress completed failed rejected : CommandStatus

pub data MemoryKind : Type 0 where
  incident fact plan execution optimization audit stats knowledge : MemoryKind

pub data BlackboardQueryMode : Type 0 where
  vector graph hybrid exact : BlackboardQueryMode

pub data SchedulerSource : Type 0 where
  api scheduler event internal : SchedulerSource

pub data AgentDecision : Type 0 where
  monitor analyze plan_and_execute optimize curate_knowledge : AgentDecision
  run_security_audit finalize : AgentDecision

pub data Priority : Type 0 where
  low medium high urgent : Priority

unfoldable pub GestaltEventType-discrete : Discrete GestaltEventType
GestaltEventType-discrete = hlevel

-- permitted_event == event_type
unfoldable pub same_event_type : GestaltEventType → GestaltEventType → Bool
unfolding GestaltEventType-discrete
same_event_type a b = elim (GestaltEventType-discrete a b) [ yes _ ↦ true | no _ ↦ false ]

pub same_event_type_iff : (a b : GestaltEventType) → (same_event_type a b ≡ true) ↔ (a ≡ b)
unfolding same_event_type
same_event_type_iff a b = ground arith

-- event_type == GestaltEventType.PEER_SIGNAL
unfoldable pub is_peer_signal : GestaltEventType → Bool
is_peer_signal GestaltEventType.peer_signal = true
is_peer_signal _ = false

-- status == CommandStatus.COMPLETED
unfoldable pub is_completed : CommandStatus → Bool
is_completed CommandStatus.completed = true
is_completed _ = false

-- status == CommandStatus.FAILED
unfoldable pub is_failed : CommandStatus → Bool
is_failed CommandStatus.failed = true
is_failed _ = false
