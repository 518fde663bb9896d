-- ===== src/BaseAgent/Make.antt =====
-- The protocol models that the specialists make, with their own id and time.
use gestalt_agentic_software.Python.Exec.{Exec, ◌>>=◌, lift}
use gestalt_agentic_software.Prelude.{String, List, none}
use gestalt_agentic_software.Protocol.Enums.{
  GestaltCommandType, MemoryKind, DecisionConfidence, CommandStatus,
}
use gestalt_agentic_software.Protocol.Models.{
  Uuid, Metadata, BlackboardMemoryRecord, GestaltCommand,
}
use gestalt_agentic_software.Protocol.Validation.{check_command, check_memory}
use gestalt_agentic_software.Runtime.{Host, Session}
use gestalt_agentic_software.Runtime

module _ (host : Host) where
  -- GestaltCommand(…)
  unfoldable pub make_command :
      Uuid → GestaltCommandType → String → String → String → Metadata → Exec Session GestaltCommand
  unfolding check_command Runtime.utc_now Runtime.new_uuid
  make_command trace_id type issued_by target_agent rationale payload = do
    id ← Runtime.on_world Runtime.new_uuid
    now ← Runtime.on_world (Runtime.utc_now host)
    lift (
        check_command (record {
          command_id = id;
          trace_id = trace_id;
          causation_id = none;
          command_type = type;
          issued_by = issued_by;
          target_agent = target_agent;
          rationale = rationale;
          payload = payload;
          confidence = DecisionConfidence.medium;
          status = CommandStatus.pending;
          created_at = now;
        }))

  -- BlackboardMemoryRecord(…, created_at=utc_now())
  unfoldable pub make_memory :
      Uuid
      → MemoryKind
      → String
      → String
      → List String
      → Metadata
      → Exec Session BlackboardMemoryRecord
  unfolding check_memory Runtime.utc_now Runtime.new_uuid
  make_memory trace_id kind title content tags metadata = do
    now ← Runtime.on_world (Runtime.utc_now host)
    id ← Runtime.on_world Runtime.new_uuid
    lift (
        check_memory (record {
          record_id = id;
          trace_id = trace_id;
          memory_kind = kind;
          title = title;
          content = content;
          tags = tags;
          embedding = none;
          metadata = metadata;
          created_at = now;
        }))
