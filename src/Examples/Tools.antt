-- ===== src/Examples/Tools.antt =====
-- The theorems on the tools at concrete inputs: a tool that counts its runs.
use gestalt_agentic_software.Protocol.Models.{Metadata}
use gestalt_agentic_software.Python.Values.{null, Value}
use gestalt_agentic_software.Prelude.Int.{pos}
use gestalt_agentic_software.Protocol.Enums.{ToolExecutionMode}
use gestalt_agentic_software.Tools.Access.{latest, get-bulk_register, list_allowed_tools-All}
use gestalt_agentic_software.Python.Exec.{Exc, ok, raised}
use gestalt_agentic_software.Tools.Base.{BaseGestaltTool, tool_name}
use gestalt_agentic_software.Tools.Permission.{IsPermittedCall, call_context, execute_tool_cases}
use gestalt_agentic_software.Tools.Registry.{
  ToolRegistry, bulk_register, execute_tool, list_allowed_tools,
}
use gestalt_agentic_software.Prelude.{
  All, List, String, ◌≡◌, [], ℕ, mem_str, none, ◌∷◌, false, true, ◌⊎◌, ◌+◌,
}
use gestalt_agentic_software.Examples.Data.{settings, host, state}
use gestalt_agentic_software.Python.Dict
use gestalt_agentic_software.Python.Dict.{string_key}

abbrev counter : String → BaseGestaltTool ℕ Metadata Value
counter name = record {
  descriptor = record {
    name = name;
    description = "Counts its runs.";
    execution_mode = ToolExecutionMode.mutating;
    timeout_seconds = pos 30;
    retries = pos 0;
    requires_approval = false;
  };
  validate_input = λ payload. ok payload;
  arun = λ payload ctx runs. (ok null, runs + 1);
}

abbrev counters : List (BaseGestaltTool ℕ Metadata Value)
counters = counter "query_blackboard" ∷ counter "http_request" ∷ counter "query_blackboard" ∷ []

abbrev nothing : ToolRegistry ℕ Metadata Value
nothing = record { tools = [] }

abbrev filled : ToolRegistry ℕ Metadata Value
filled = bulk_register counters nothing

get-bulk_register_example :
    Dict.get filled.tools "http_request" ≡ latest counters "http_request" none
unfolding Dict.get
get-bulk_register_example = get-bulk_register counters nothing "http_request"

list_allowed_tools-All_example :
    All
      (λ (tool : BaseGestaltTool ℕ Metadata Value).
        mem_str (tool_name tool) ("http_request" ∷ []) ≡ true)
      (list_allowed_tools filled ("http_request" ∷ []))
list_allowed_tools-All_example = list_allowed_tools-All counters ("http_request" ∷ [])

execute_tool_cases_example :
    ((p : IsPermittedCall settings host "orchestrator" filled "query_blackboard" [] state)
      × (execute_tool settings host "orchestrator" filled "query_blackboard" [] state 4
          ≡ p.tool.arun p.accepted
              (call_context settings host "orchestrator" filled "query_blackboard" [] state)
              4))
    ⊎ ((exc : Exc) × (execute_tool settings host "orchestrator" filled "query_blackboard" [] state 4
          ≡ (raised exc, 4)))
execute_tool_cases_example =
    execute_tool_cases settings host "orchestrator" filled "query_blackboard" [] state 4
