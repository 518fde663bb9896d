-- ===== src/Tools/Registry.antt =====
-- gestalt/tools/registry.py, and `execute_tool` of gestalt/base_agent.py.
use gestalt_agentic_software.Protocol.Reports.{GestaltGraphState}
use gestalt_agentic_software.Protocol.Models.{Metadata}
use gestalt_agentic_software.BaseAgent.Context.{allowed_tools}
use gestalt_agentic_software.Python.Values.{str}
use gestalt_agentic_software.Runtime.{Host}
use gestalt_agentic_software.Config.{GestaltSettings}
use gestalt_agentic_software.Python.Exec.{
  Result, Exec, raise_with, key_error, ◌>>=◌, lift, ok, raise, tool_permission_error, quoted,
}
use gestalt_agentic_software.Tools.Base.{execute, BaseGestaltTool, ToolExecutionRequest, tool_name}
use gestalt_agentic_software.Prelude.{
  List, String, ℕ, ◌∷◌, Bool, [], if◌then◌else◌, codes, true, false, ltb, ◌||◌, ◌==◌, ◌&&◌, map,
  none, select, mem_str, some, ◌+++◌,
}
use gestalt_agentic_software.Python.Dict
use gestalt_agentic_software.Python.Dict.{Dict, string_key}

-- s <= t, for texts as lists of code points
abbrev pub codes_le : List ℕ → List ℕ → Bool
codes_le [] ys = true
codes_le (x ∷ xs) [] = false
codes_le (x ∷ xs) (y ∷ ys) = ltb x y || (x == y && codes_le xs ys)

abbrev pub insert_text : String → List String → List String
insert_text s [] = s ∷ []
insert_text s (t ∷ ts) =
    let rest = insert_text s ts in if codes_le (codes s) (codes t) then s ∷ t ∷ ts else t ∷ rest

-- sorted(…), of texts
abbrev pub sorted : List String → List String
sorted [] = []
sorted (s ∷ ss) = insert_text s (sorted ss)

pub record ToolRegistry (S I T : Type 0) : Type 0 where
  pub tools : Dict String (BaseGestaltTool S I T)

module _ {S I T : Type 0} where
  unfoldable pub register : BaseGestaltTool S I T → ToolRegistry S I T → ToolRegistry S I T
  register tool r = record { tools = Dict.put r.tools (tool_name tool) tool }

  unfoldable pub bulk_register :
      List (BaseGestaltTool S I T) → ToolRegistry S I T → ToolRegistry S I T
  unfolding register
  bulk_register [] r = r
  bulk_register (tool ∷ tools) r = bulk_register tools (register tool r)

  unfoldable pub get_tool : ToolRegistry S I T → String → Result (BaseGestaltTool S I T)
  get_tool r name = elim (Dict.get r.tools name) [
    | none ↦ raise_with key_error (quoted name)
    | some tool ↦ ok tool
  ]

  unfoldable pub list_tools : ToolRegistry S I T → List String
  list_tools r = sorted (map (λ entry. entry.0) r.tools)

  unfoldable pub list_allowed_tools :
      ToolRegistry S I T → List String → List (BaseGestaltTool S I T)
  list_allowed_tools r allowlist =
      map (λ entry. entry.1) (select (λ entry. mem_str entry.0 allowlist) r.tools)

  abbrev run_tool : ToolRegistry S I T → String → ToolExecutionRequest → Exec S T
  run_tool r name request = do tool ← lift (get_tool r name); execute tool request

  unfoldable pub execute_allowed :
      ToolRegistry S I T → String → ToolExecutionRequest → List String → Exec S T
  unfolding get_tool execute
  execute_allowed r name request allowlist =
      if mem_str name allowlist
      then run_tool r name request
      else raise tool_permission_error
          ("Tool '" +++ name +++ "' is not allowed for agent '" +++ request.agent_name +++ "'.")

  module _ (settings : GestaltSettings) (host : Host) (caller : String) where
    unfoldable pub execute_tool :
        ToolRegistry S I T → String → Metadata → GestaltGraphState → Exec S T
    unfolding allowed_tools execute_allowed
    execute_tool r name payload state = do
      allowlist ← lift (allowed_tools settings caller)
      execute_allowed r name
          (record {
            trace_id = host.uuid_text state.trace_id;
            agent_name = caller;
            payload = payload;
            metadata = ("cycle_id", str (host.uuid_text state.cycle_id)) ∷ [];
          })
          allowlist
