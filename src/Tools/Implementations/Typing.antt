-- ===== src/Tools/Implementations/Typing.antt =====
-- The outputs of the tools, and the casts of gestalt/base_agent.py.
use gestalt_agentic_software.Tools.Permission.{execute_tool_cases}
use gestalt_agentic_software.Tools.Everywhere.{bulk_register-Everywhere, get-Everywhere}
use gestalt_agentic_software.Protocol.Reports.{GestaltGraphState}
use gestalt_agentic_software.Protocol.Models.{Metadata}
use gestalt_agentic_software.Tools.Implementations.Catalog.{register_tools, all_tools}
use gestalt_agentic_software.Tools.Implementations.Kubernetes.{
  kubernetes_patch_tool, kubernetes_read_tool,
}
use gestalt_agentic_software.Tools.Implementations.Sandbox.{sandbox_command_tool}
use gestalt_agentic_software.Tools.Implementations.Http.{http_request_tool}
use gestalt_agentic_software.Tools.Implementations.Metrics.{
  prometheus_query_tool, redis_stream_inspect_tool,
}
use gestalt_agentic_software.Tools.Implementations.Memory.{
  blackboard_query_tool, blackboard_write_tool,
}
use gestalt_agentic_software.Python.Exec.{ok, Result}
use gestalt_agentic_software.Config.{GestaltSettings}
use gestalt_agentic_software.Tools.Outside.{Outside}
use gestalt_agentic_software.Tools.Outputs.{
  ToolInput, ToolOutput, queried, written, measured, responded, executed, inspected,
  kubernetes_state, kubernetes_patched,
}
use gestalt_agentic_software.Runtime.{Host, World}
use gestalt_agentic_software.Tools.Registry.{execute_tool}
use gestalt_agentic_software.Tools.Base.{BaseGestaltTool, ToolContext}
use gestalt_agentic_software.Prelude.{String, ◌≡◌, arith, [], sym, inl, ap, ◌∙◌, inr}
use gestalt_agentic_software.Python.Dict.{string_key}

-- The output is of the model that the tool of that name gives.
abbrev pub IsOutputOf : String → ToolOutput → Type 0
IsOutputOf name (queried _) = name ≡ "blackboard_query"
IsOutputOf name (written _) = name ≡ "blackboard_write"
IsOutputOf name (measured _) = name ≡ "prometheus_query"
IsOutputOf name (responded _) = name ≡ "http_request"
IsOutputOf name (executed _) = name ≡ "sandbox_command"
IsOutputOf name (inspected _) = name ≡ "redis_stream_inspect"
IsOutputOf name (kubernetes_state _) = name ≡ "kubernetes_read"
IsOutputOf name (kubernetes_patched _) = name ≡ "kubernetes_patch"

abbrev Tool : Type 0
Tool = BaseGestaltTool World ToolInput ToolOutput

-- What the tool gives under the name.
pub record IsTyped (name : String) (tool : Tool) : Type 0 where
  pub output :
      (input : ToolInput) (c : ToolContext) (w : World) (out : ToolOutput)
      → (tool.arun input c w).0 ≡ ok out
      → IsOutputOf name out

module _ (host : Host) (outside : Outside) (settings : GestaltSettings) where
  query-IsTyped : IsTyped "blackboard_query" (blackboard_query_tool host outside.coercions)
  unfolding blackboard_query_tool
  query-IsTyped = record { output = λ input c w out e. ground arith }

  write-IsTyped : IsTyped "blackboard_write" (blackboard_write_tool host outside.coercions)
  unfolding blackboard_write_tool
  write-IsTyped = record { output = λ input c w out e. ground arith }

  prometheus-IsTyped : IsTyped "prometheus_query" (prometheus_query_tool host)
  unfolding prometheus_query_tool
  prometheus-IsTyped = record { output = λ input c w out e. ground arith }

  http-IsTyped : IsTyped "http_request" (http_request_tool outside settings.security)
  unfolding http_request_tool
  http-IsTyped = record { output = λ input c w out e. ground arith }

  sandbox-IsTyped : IsTyped "sandbox_command" (sandbox_command_tool outside "/workspace")
  unfolding sandbox_command_tool
  sandbox-IsTyped = record { output = λ input c w out e. ground arith }

  redis-IsTyped : IsTyped "redis_stream_inspect" (redis_stream_inspect_tool outside.coercions)
  unfolding redis_stream_inspect_tool
  redis-IsTyped = record { output = λ input c w out e. ground arith }

  read-IsTyped : IsTyped "kubernetes_read" kubernetes_read_tool
  unfolding kubernetes_read_tool
  read-IsTyped = record { output = λ input c w out e. ground arith }

  patch-IsTyped : IsTyped "kubernetes_patch" kubernetes_patch_tool
  unfolding kubernetes_patch_tool
  patch-IsTyped = record { output = λ input c w out e. ground arith }

  -- A call of a tool of the program that gives an output gives one of the model that belongs to the
  -- tool's name.
  pub execute_tool-IsOutputOf :
      (caller name : String) (payload : Metadata) (state : GestaltGraphState) (w : World)
      (out : ToolOutput)
      → (execute_tool settings host caller
          (register_tools host outside settings (record { tools = [] }))
          name
          payload
          state
          w).0
        ≡ ok out
      → IsOutputOf name out
  unfolding register_tools all_tools
  execute_tool-IsOutputOf caller name payload state w out e =
      let r = register_tools host outside settings (record { tools = [] }) in
      let typed =
        bulk_register-Everywhere IsTyped (all_tools host outside settings) (record { tools = [] })
          (
            query-IsTyped,
            (
              write-IsTyped,
              (
                prometheus-IsTyped,
                (
                  http-IsTyped,
                  (sandbox-IsTyped, (redis-IsTyped, (read-IsTyped, (patch-IsTyped, tt)))),
                ),
              ),
            ),
          )
          tt in
      elim (execute_tool_cases settings host caller r name payload state w) [
        | inl (p, ran) ↦
            (get-Everywhere IsTyped r.tools name p.tool typed p.registered).output p.accepted _ w
              out (sym (ap (λ (x : Result ToolOutput × World). x.0) ran) ∙ e)
        | inr (exc, failed) ↦
            absurd (ground (arith, ap (λ (x : Result ToolOutput × World). x.0) failed))
      ]
