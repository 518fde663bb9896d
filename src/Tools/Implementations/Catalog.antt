-- ===== src/Tools/Implementations/Catalog.antt =====
-- `_register_tools` of gestalt/main.py: the tools of the program.
use gestalt_agentic_software.Tools.Base.{BaseGestaltTool}
use gestalt_agentic_software.Prelude.{List, ◌∷◌, []}
use gestalt_agentic_software.Tools.Implementations.Kubernetes.{
  kubernetes_read_tool, kubernetes_patch_tool,
}
use gestalt_agentic_software.Tools.Implementations.Sandbox.{sandbox_command_tool}
use gestalt_agentic_software.Tools.Outputs.{ToolInput, ToolOutput}
use gestalt_agentic_software.Tools.Implementations.Http.{http_request_tool}
use gestalt_agentic_software.Tools.Implementations.Metrics.{
  prometheus_query_tool, redis_stream_inspect_tool,
}
use gestalt_agentic_software.Tools.Registry.{bulk_register, ToolRegistry}
use gestalt_agentic_software.Tools.Implementations.Memory.{
  blackboard_query_tool, blackboard_write_tool,
}
use gestalt_agentic_software.Config.{GestaltSettings}
use gestalt_agentic_software.Tools.Outside.{Outside}
use gestalt_agentic_software.Runtime.{Host, World}

module _ (host : Host) (outside : Outside) (settings : GestaltSettings) where
  unfoldable pub all_tools : List (BaseGestaltTool World ToolInput ToolOutput)
  unfolding blackboard_query_tool blackboard_write_tool prometheus_query_tool http_request_tool
      sandbox_command_tool redis_stream_inspect_tool kubernetes_read_tool kubernetes_patch_tool
  all_tools =
      blackboard_query_tool host outside.coercions
      ∷ blackboard_write_tool host outside.coercions
      ∷ prometheus_query_tool host
      ∷ http_request_tool outside settings.security
      ∷ sandbox_command_tool outside "/workspace"
      ∷ redis_stream_inspect_tool outside.coercions
      ∷ kubernetes_read_tool
      ∷ kubernetes_patch_tool
      ∷ []

  unfoldable pub register_tools :
      ToolRegistry World ToolInput ToolOutput → ToolRegistry World ToolInput ToolOutput
  unfolding all_tools bulk_register
  register_tools r = bulk_register all_tools r
