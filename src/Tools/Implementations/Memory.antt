-- ===== src/Tools/Implementations/Memory.antt =====
-- gestalt/tools/implementations/blackboard.py
use gestalt_agentic_software.BaseAgent.Context.{milliseconds}
use gestalt_agentic_software.Prelude.Int.{pos, pos_part}
use gestalt_agentic_software.Protocol.Enums.{ToolExecutionMode, BlackboardQueryMode}
use gestalt_agentic_software.Prelude.{◌∷◌, [], false, none, some}
use gestalt_agentic_software.Python.Exec.{
  Exec, Result, ◌>>=◌, gets, lift, on_part, pure, ok, raise_with, raise, validation_error,
  attribute_error,
}
use gestalt_agentic_software.Tools.Outputs.{ToolInput, ToolOutput, written, queried}
use gestalt_agentic_software.Protocol.Models.{BlackboardQuery, Metadata, BlackboardQueryResult}
use gestalt_agentic_software.Tools.Base.{BaseGestaltTool, ToolContext}
use gestalt_agentic_software.Protocol.Validation.{check_query}
use gestalt_agentic_software.Blackboard.{query_memory, write_memory}
use gestalt_agentic_software.Tools.Fields.{
  Coercions, model, some_text, int_field, dict_field, and_then,
}
use gestalt_agentic_software.Runtime.{Host, World}
use gestalt_agentic_software.Python.Dict
use gestalt_agentic_software.Python.Dict.{string_key}
use gestalt_agentic_software.Runtime

module _ (host : Host) where
  -- `query_memory`, which reads the clock before and after.
  unfoldable pub timed_query : BlackboardQuery → Exec World BlackboardQueryResult
  unfolding query_memory Runtime.utc_now
  timed_query query = do
    started ← Runtime.utc_now host
    board ← gets (λ w. w.board)
    ended ← Runtime.utc_now host
    pure (query_memory host.same_value host.uuid_text board query (milliseconds host started ended))

module _ (host : Host) (coercions : Coercions) where
  unfoldable pub validate_query : Metadata → Result ToolInput
  unfolding model some_text int_field dict_field
  validate_query payload = model ("query" ∷ "limit" ∷ "filters" ∷ []) payload (
      and_then (some_text payload "query") λ q.
        and_then (int_field coercions payload "limit" (pos 5) (pos 1) (pos 100)) λ n.
          and_then (dict_field payload "filters")
            λ f. ok (ToolInput.blackboard_query (record { query = q; limit = n; filters = f })))

  unfoldable pub run_query : ToolInput → ToolContext → Exec World ToolOutput
  unfolding timed_query check_query
  run_query (ToolInput.blackboard_query input) context = do
    query ← lift (
        check_query (record {
          query = input.query;
          mode = BlackboardQueryMode.hybrid;
          limit = pos_part input.limit;
          filters = input.filters;
        }))
    result ← timed_query host query
    pure (queried result)
  run_query _ context = raise attribute_error "query"

  unfoldable pub blackboard_query_tool : BaseGestaltTool World ToolInput ToolOutput
  unfolding validate_query run_query
  blackboard_query_tool = record {
    descriptor = record {
      name = "blackboard_query";
      description = "Query the shared Gestalt blackboard memory.";
      execution_mode = ToolExecutionMode.read_only;
      timeout_seconds = pos 30;
      retries = pos 0;
      requires_approval = false;
    };
    validate_input = validate_query;
    arun = run_query;
  }

  unfoldable pub validate_write : Metadata → Result ToolInput
  unfolding model
  validate_write payload = model ("record" ∷ []) payload (elim (Dict.get payload "record") [
    | none ↦ raise_with validation_error "Field required"
    | some v ↦ and_then (coercions.memory_record v) λ r. ok (ToolInput.blackboard_write r)
  ])

  unfoldable pub run_write : ToolInput → ToolContext → Exec World ToolOutput
  unfolding write_memory
  run_write (ToolInput.blackboard_write r) context = do
    kept ← on_part (λ w. w.board) (λ b w. record w { board = b }) (write_memory r)
    pure (written kept)
  run_write _ context = raise attribute_error "record"

  unfoldable pub blackboard_write_tool : BaseGestaltTool World ToolInput ToolOutput
  unfolding validate_write run_write
  blackboard_write_tool = record {
    descriptor = record {
      name = "blackboard_write";
      description = "Write a memory record into the shared Gestalt blackboard.";
      execution_mode = ToolExecutionMode.mutating;
      timeout_seconds = pos 30;
      retries = pos 0;
      requires_approval = false;
    };
    validate_input = validate_write;
    arun = run_write;
  }
