-- ===== src/Tools/Implementations/Effects.antt =====
-- The eight tools keep the clock and the bus.
use gestalt_agentic_software.Tools.Effects.{IsTame, AreTame, bulk_register-AreTame}
use gestalt_agentic_software.Events.Interface.{IsMemory}
use gestalt_agentic_software.Tools.Implementations.Catalog.{register_tools, all_tools}
use gestalt_agentic_software.Tools.Implementations.Kubernetes.{
  kubernetes_patch_tool, kubernetes_read_tool,
}
use gestalt_agentic_software.Tools.Implementations.Sandbox.{sandbox_command_tool}
use gestalt_agentic_software.Tools.Implementations.Http.{http_request_tool}
use gestalt_agentic_software.Tools.Implementations.Metrics.{
  prometheus_query_tool, redis_stream_inspect_tool,
}
use gestalt_agentic_software.Tools.Implementations.Memory.{
  blackboard_query_tool, blackboard_write_tool,
}
use gestalt_agentic_software.BaseAgent.Clock.{Goes}
use gestalt_agentic_software.Config.{GestaltSettings}
use gestalt_agentic_software.Tools.Outside.{Outside}
use gestalt_agentic_software.Prelude.{◌≤◌, ◌≡◌, arith, sym, []}
use gestalt_agentic_software.Runtime.{Host, World}
use mathlib.Core.Path.{subst}

same_clock : (w v : World) → w.ticks ≤ v.ticks → v.bus ≡ w.bus → Goes w v
same_clock w v later same = record { later = later; memory = λ m. subst IsMemory (sym same) m }

module _ (host : Host) (outside : Outside) (settings : GestaltSettings) where
  query-IsTame : IsTame Goes (blackboard_query_tool host outside.coercions)
  unfolding blackboard_query_tool
  query-IsTame = record { goes = λ input c w. same_clock w _ (ground arith) (ground arith) }

  write-IsTame : IsTame Goes (blackboard_write_tool host outside.coercions)
  unfolding blackboard_write_tool
  write-IsTame = record { goes = λ input c w. same_clock w _ (ground arith) (ground arith) }

  prometheus-IsTame : IsTame Goes (prometheus_query_tool host)
  unfolding prometheus_query_tool
  prometheus-IsTame = record { goes = λ input c w. same_clock w _ (ground arith) (ground arith) }

  http-IsTame : IsTame Goes (http_request_tool outside settings.security)
  unfolding http_request_tool
  http-IsTame = record { goes = λ input c w. same_clock w _ (ground arith) (ground arith) }

  sandbox-IsTame : IsTame Goes (sandbox_command_tool outside "/workspace")
  unfolding sandbox_command_tool
  sandbox-IsTame = record { goes = λ input c w. same_clock w _ (ground arith) (ground arith) }

  redis-IsTame : IsTame Goes (redis_stream_inspect_tool outside.coercions)
  unfolding redis_stream_inspect_tool
  redis-IsTame = record { goes = λ input c w. same_clock w _ (ground arith) (ground arith) }

  read-IsTame : IsTame Goes kubernetes_read_tool
  unfolding kubernetes_read_tool
  read-IsTame = record { goes = λ input c w. same_clock w _ (ground arith) (ground arith) }

  patch-IsTame : IsTame Goes kubernetes_patch_tool
  unfolding kubernetes_patch_tool
  patch-IsTame = record { goes = λ input c w. same_clock w _ (ground arith) (ground arith) }

  -- The registry of the program has only tame tools.
  pub register_tools-AreTame :
      AreTame Goes (register_tools host outside settings (record { tools = [] }))
  unfolding register_tools all_tools
  register_tools-AreTame =
      bulk_register-AreTame Goes (all_tools host outside settings) (record { tools = [] })
        (
          query-IsTame,
          (
            write-IsTame,
            (
              prometheus-IsTame,
              (http-IsTame, (sandbox-IsTame, (redis-IsTame, (read-IsTame, (patch-IsTame, tt))))),
            ),
          ),
        )
        tt
