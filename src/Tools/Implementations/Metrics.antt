-- ===== src/Tools/Implementations/Metrics.antt =====
-- gestalt/tools/implementations/prometheus.py and redis_admin.py
use gestalt_agentic_software.Prelude.Int.{pos}
use gestalt_agentic_software.Python.Floats.{float_one}
use gestalt_agentic_software.Protocol.Enums.{ToolExecutionMode}
use gestalt_agentic_software.Python.Exec.{Exec, Result, pure, ◌>>=◌, raise, attribute_error, ok}
use gestalt_agentic_software.Protocol.Models.{Metadata}
use gestalt_agentic_software.Tools.Base.{BaseGestaltTool, ToolContext}
use gestalt_agentic_software.Tools.Outputs.{ToolInput, ToolOutput, inspected, measured}
use gestalt_agentic_software.Runtime.{Host, World}
use gestalt_agentic_software.Tools.Fields.{Coercions, model, some_text, int_field, and_then}
use gestalt_agentic_software.Prelude.{
  List, ℕ, if◌then◌else◌, contains, codes, ◌∷◌, [], false, lower,
}
use gestalt_agentic_software.Python.Values.{Float}
use gestalt_agentic_software.Runtime

-- The literals 3.0, 420.0 and 0.01.
abbrev pub float_queue : Float
float_queue = 0x4008000000000000

abbrev pub float_latency : Float
float_latency = 0x407a400000000000

abbrev pub float_error : Float
float_error = 0x3f847ae147ae147b

unfoldable pub metric_value : List ℕ → Float
metric_value query =
    if contains query (codes "queue")
    then float_queue
    else if contains query (codes "latency")
    then float_latency
    else if contains query (codes "error")
    then float_error
    else float_one

unfoldable pub validate_prometheus : Metadata → Result ToolInput
unfolding model some_text
validate_prometheus payload =
    model ("query" ∷ []) payload
      (and_then (some_text payload "query") λ q. ok (ToolInput.prometheus_query q))

module _ (host : Host) where
  unfoldable pub run_prometheus : ToolInput → ToolContext → Exec World ToolOutput
  unfolding metric_value Runtime.utc_now
  run_prometheus (ToolInput.prometheus_query q) context = do
    now ← Runtime.utc_now host
    pure (measured (record { query = q; value = metric_value (lower q); sampled_at = now }))
  run_prometheus _ context = raise attribute_error "query"

  unfoldable pub prometheus_query_tool : BaseGestaltTool World ToolInput ToolOutput
  unfolding validate_prometheus run_prometheus
  prometheus_query_tool = record {
    descriptor = record {
      name = "prometheus_query";
      description = "Query operational metrics used by Gestalt agents.";
      execution_mode = ToolExecutionMode.read_only;
      timeout_seconds = pos 30;
      retries = pos 0;
      requires_approval = false;
    };
    validate_input = validate_prometheus;
    arun = run_prometheus;
  }

module _ (coercions : Coercions) where
  unfoldable pub validate_redis : Metadata → Result ToolInput
  unfolding model some_text int_field
  validate_redis payload = model ("stream_name" ∷ "count" ∷ []) payload (
      and_then (some_text payload "stream_name") λ s.
        and_then (int_field coercions payload "count" (pos 10) (pos 1) (pos 100))
          λ n. ok (ToolInput.redis_stream_inspect (record { stream_name = s; count = n })))

  unfoldable pub run_redis : ToolInput → ToolContext → Exec World ToolOutput
  run_redis (ToolInput.redis_stream_inspect input) context =
      pure
        (inspected (record { stream_name = input.stream_name; count = input.count; entries = [] }))
  run_redis _ context = raise attribute_error "stream_name"

  unfoldable pub redis_stream_inspect_tool : BaseGestaltTool World ToolInput ToolOutput
  unfolding validate_redis run_redis
  redis_stream_inspect_tool = record {
    descriptor = record {
      name = "redis_stream_inspect";
      description = "Inspect Redis Streams entries for audit and debugging.";
      execution_mode = ToolExecutionMode.read_only;
      timeout_seconds = pos 10;
      retries = pos 0;
      requires_approval = false;
    };
    validate_input = validate_redis;
    arun = run_redis;
  }
