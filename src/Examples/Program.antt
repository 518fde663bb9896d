-- ===== src/Examples/Program.antt =====
-- The assembled program at concrete inputs.
use gestalt_agentic_software.Tools.Implementations.Memory.{blackboard_query_tool}
use gestalt_agentic_software.Tools.Fields.{model, some_text, text_field, text_value, only_fields}
use gestalt_agentic_software.Tools.Implementations.Catalog.{register_tools, all_tools}
use gestalt_agentic_software.BaseAgent.Context.{allowed_tools}
use gestalt_agentic_software.Tools.Registry.{
  execute_tool, execute_allowed, get_tool, bulk_register, register,
}
use gestalt_agentic_software.Prelude.Int.{pos}
use gestalt_agentic_software.Python.Values.{str}
use gestalt_agentic_software.Tools.Implementations.Effects.{register_tools-AreTame}
use gestalt_agentic_software.App.Confinement.{run_cycle-confined}
use gestalt_agentic_software.Tools.Implementations.Metrics.{
  metric_value, float_queue, prometheus_query_tool, validate_prometheus, run_prometheus,
}
use gestalt_agentic_software.App.Cycle.{tool_registry, agents, program-IsCycle}
use gestalt_agentic_software.Graph.{run_cycle}
use gestalt_agentic_software.Tools.Outputs.{ToolOutput, measured}
use gestalt_agentic_software.Protocol.Enums.{SchedulerSource}
use gestalt_agentic_software.Agents.Specialists.{specialists, specialists-AreSpecialists}
use gestalt_agentic_software.Tools.Implementations.Confinement.{Confined}
use gestalt_agentic_software.Examples.Data.{host, settings, world, at, state}
use gestalt_agentic_software.Python.Exec.{raise_with, validation_error, ok, timeout_error}
use gestalt_agentic_software.Tools.Implementations.Typing.{IsOutputOf, execute_tool-IsOutputOf}
use gestalt_agentic_software.Graph.Cycle.{AreSpecialists}
use gestalt_agentic_software.Graph.Response.{IsCycle}
use gestalt_agentic_software.Orchestrator.Setup.{IsSetUp}
use gestalt_agentic_software.Runtime.{World, http_call}
use gestalt_agentic_software.Protocol.Reports.{CycleRequest}
use gestalt_agentic_software.Tools.Outside.{Outside}
use gestalt_agentic_software.Config.{GestaltSettings, AgentPolicyConfig, ModelPreference}
use gestalt_agentic_software.Prelude.{
  All, List, String, true, ◌∷◌, [], arith, refl, ◌≡◌, inr, ◌+++◌, some, codes,
}
use mathlib.Core.List.{Memᴰ}
use gestalt_agentic_software.Python.Dict
use gestalt_agentic_software.Python.Dict.{string_key}

abbrev agent : List String → AgentPolicyConfig
agent tools = record {
  enabled = true;
  model_preference = ModelPreference.low;
  max_retries = 1;
  tool_allowlist = tools;
}

-- Every agent with the tools that it asks for, and one host on the allowlist.
abbrev pub program_settings : GestaltSettings
program_settings = record settings {
  security = record {
    sandbox_enabled = true;
    sandbox_timeout_seconds = 10;
    outbound_http_allowlist = "https://api.example.com/" ∷ [];
    kubernetes_allowed_namespaces = [];
  };
  agents =
      ("orchestrator", agent ("blackboard_query" ∷ []))
      ∷ ("monitor", agent ("prometheus_query" ∷ []))
      ∷ ("analyzer", agent ("blackboard_query" ∷ "prometheus_query" ∷ []))
      ∷ ("planner_executor", agent ("sandbox_command" ∷ []))
      ∷ ("optimizer", agent ("blackboard_query" ∷ "prometheus_query" ∷ []))
      ∷ ("knowledge", agent ("blackboard_query" ∷ []))
      ∷ (
        "security_audit",
        agent ("blackboard_query" ∷ "redis_stream_inspect" ∷ "prometheus_query" ∷ []),
      )
      ∷ [];
}

-- Servers that answer nothing, and paths that are taken to be inside the root.
abbrev pub outside : Outside
outside = record {
  coercions = record {
    int_from = λ v. raise_with validation_error "no integer";
    bool_from = λ v. raise_with validation_error "no Boolean";
    http_url = λ s. ok s;
    memory_record = λ v. raise_with validation_error "no record";
  };
  upper = λ s. s;
  respond = λ n request. raise_with timeout_error "no answer";
  resolve = λ root path. root +++ "/" +++ path;
  communicate =
      λ n command. ok (record { stdout = "done"; stderr = ""; returncode = some (pos 0) });
}

abbrev execution : CycleRequest
execution = record {
  objective = "Execute the rollout";
  source = SchedulerSource.api;
  metadata = [];
}

-- A world in which a request has gone out to the host on the allowlist.
abbrev pub called : World
called = record world { outside = http_call "GET" "https://api.example.com/status" ∷ [] }

pub program-IsSetUp : IsSetUp program_settings host "Route with care."
unfolding Dict.get
program-IsSetUp = record {
  mono = record { later = λ m n h. omega arith };
  prompt_clock = λ n. omega arith;
  policy = _;
  policy_eq = refl;
  mock = refl;
  top_k_low = omega arith;
  top_k_high = omega arith;
  prompt_text = omega arith;
}

program-IsCycle_example :
    IsCycle host execution
      (run_cycle program_settings host "Route with care."
        (agents program_settings host outside)
        25
        execution
        called).0
unfolding Dict.get
program-IsCycle_example =
    program-IsCycle program_settings host outside program-IsSetUp 25 execution called (omega arith)
      (omega arith) refl refl refl (record { held = _; eq = refl })

run_cycle-confined_example :
    All
      (Confined host outside program_settings)
      (run_cycle program_settings host "Route with care."
        (agents program_settings host outside)
        25
        execution
        called).1.outside
run_cycle-confined_example =
    run_cycle-confined program_settings host outside "Route with care." 25 execution called
      (inr ("https://api.example.com/", Memᴰ.head refl, (codes "status", refl)), tt)

specialists-AreSpecialists_example : AreSpecialists (
    specialists program_settings host outside.coercions
      (tool_registry program_settings host outside))
specialists-AreSpecialists_example =
    specialists-AreSpecialists program_settings host outside.coercions
      (tool_registry program_settings host outside)
      (register_tools-AreTame host outside program_settings)

abbrev reading : ToolOutput
reading = measured (record { query = "queue_depth"; value = float_queue; sampled_at = at 0 })

queue_reading :
    (execute_tool program_settings host "monitor"
      (register_tools host outside program_settings (record { tools = [] }))
      "prometheus_query"
      (("query", str "queue_depth") ∷ [])
      state
      called).0
    ≡ ok reading
unfolding execute_tool execute_allowed allowed_tools get_tool register_tools all_tools bulk_register
    register Dict.get Dict.put prometheus_query_tool validate_prometheus run_prometheus metric_value
    model some_text text_field text_value only_fields blackboard_query_tool
queue_reading = refl

execute_tool-IsOutputOf_example : IsOutputOf "prometheus_query" reading
execute_tool-IsOutputOf_example =
    execute_tool-IsOutputOf host outside program_settings "monitor" "prometheus_query"
      (("query", str "queue_depth") ∷ []) state called reading queue_reading
