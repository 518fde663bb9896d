-- ===== src/Tools/Permission.antt =====
-- When an agent's call of a tool runs the tool's code.
use gestalt_agentic_software.Python.Returns.{Result-cases}
use gestalt_agentic_software.Tools.Base.{execute, context}
use gestalt_agentic_software.BaseAgent.Context.{allowed_tools}
use gestalt_agentic_software.Python.Values.{str}
use gestalt_agentic_software.Tools.Base.{ToolContext, BaseGestaltTool}
use gestalt_agentic_software.Python.Exec.{
  Exec, ok, Exc, raised, key_error, tool_permission_error, quoted,
}
use gestalt_agentic_software.Protocol.Reports.{GestaltGraphState}
use gestalt_agentic_software.Protocol.Models.{Metadata}
use gestalt_agentic_software.Prelude.{
  String, ◌∷◌, ◌≡◌, [], some, mem_str, true, arith, ◌⊎◌, Option-cases, inl, inr, Bool-cases, ◌+++◌,
}
use gestalt_agentic_software.Tools.Registry.{ToolRegistry, execute_tool, execute_allowed, get_tool}
use gestalt_agentic_software.Runtime.{Host}
use gestalt_agentic_software.Config.{GestaltSettings, AgentPolicyConfig}
use gestalt_agentic_software.Python.Dict
use gestalt_agentic_software.Python.Dict.{Dict, string_key}

module _ {S I T : Type 0} (settings : GestaltSettings) (host : Host) (caller : String)
    (r : ToolRegistry S I T) (name : String) (payload : Metadata) (state : GestaltGraphState) where
  -- The call is permitted: the agent is configured, its allowlist names the tool, and the tool is
  -- registered and accepts the payload.
  pub record IsPermittedCall : Type 0 where
    pub policy : AgentPolicyConfig
    pub tool : BaseGestaltTool S I T
    pub accepted : I
    pub policy_eq : Dict.get settings.agents caller ≡ some policy
    pub listed : mem_str name policy.tool_allowlist ≡ true
    pub registered : Dict.get r.tools name ≡ some tool
    pub valid : tool.validate_input payload ≡ ok accepted

  abbrev call : Exec S T
  call = execute_tool settings host caller r name payload state

  abbrev pub call_context : ToolContext
  call_context = record {
    trace_id = host.uuid_text state.trace_id;
    agent_name = caller;
    metadata = ("cycle_id", str (host.uuid_text state.cycle_id)) ∷ [];
  }

  -- A permitted call is the run of the tool.
  permitted-call : (p : IsPermittedCall) (s : S) → call s ≡ p.tool.arun p.accepted call_context s
  unfolding execute_tool execute_allowed allowed_tools get_tool execute context
  permitted-call p s = ground (arith, p.policy_eq, p.listed, p.registered, p.valid)

  -- A tool's code runs only when the agent is configured, its allowlist names the tool, and the tool is
  -- registered and accepts the payload, and then with the agent's name and the cycle's ids; any other
  -- call raises and leaves everything as it was.
  pub execute_tool_cases :
      (s : S)
      → ((p : IsPermittedCall) × (call s ≡ p.tool.arun p.accepted call_context s))
        ⊎ ((exc : Exc) × (call s ≡ (raised exc, s)))
  unfolding execute_tool execute_allowed allowed_tools get_tool execute context
  execute_tool_cases s = elim (Option-cases (Dict.get settings.agents caller)) [
    | inl unknown ↦ inr (record { kind = key_error; message = quoted caller }, ground arith)
    | inr (policy, policy_eq) ↦ elim (Bool-cases (mem_str name policy.tool_allowlist)) [
      | inr denied ↦ inr (
        record {
          kind = tool_permission_error;
          message = "Tool '" +++ name +++ "' is not allowed for agent '" +++ caller +++ "'.";
        },
        ground (arith, policy_eq, denied),
      )
      | inl listed ↦ elim (Option-cases (Dict.get r.tools name)) [
        | inl missing ↦ inr (
          record { kind = key_error; message = quoted name },
          ground (arith, policy_eq, listed, missing),
        )
        | inr (tool, registered) ↦ elim (Result-cases (tool.validate_input payload)) [
          | inr (exc, invalid) ↦ inr (exc, ground (arith, policy_eq, listed, registered, invalid))
          | inl (accepted, valid) ↦
              let p : IsPermittedCall = record {
                policy = policy;
                tool = tool;
                accepted = accepted;
                policy_eq = policy_eq;
                listed = listed;
                registered = registered;
                valid = valid;
              } in
              inl (p, permitted-call p s)
        ]
      ]
    ]
  ]
