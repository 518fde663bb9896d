-- ===== src/App/Cycle.antt =====
-- The assembled program: its agents with its tools.
use gestalt_agentic_software.Orchestrator.Order.{IsKnown}
use gestalt_agentic_software.Graph.Response.{IsCycle, run_cycle-IsCycle, run_cycle-follows}
use gestalt_agentic_software.Tools.Implementations.Effects.{register_tools-AreTame}
use gestalt_agentic_software.Events.Interface.{IsMemory}
use gestalt_agentic_software.Orchestrator.Agents.{scheduled_name, determine_next_agents}
use gestalt_agentic_software.Python.Dict
use gestalt_agentic_software.Protocol.Reports.{CycleRequest, GestaltGraphState}
use gestalt_agentic_software.Orchestrator.Setup.{IsSetUp}
use gestalt_agentic_software.Prelude.{
  [], String, ℕ, ◌≤◌, ◌≡◌, none, str_len, is_blank, codes, false, All,
}
use gestalt_agentic_software.Tools.Implementations.Catalog.{register_tools}
use gestalt_agentic_software.Tools.Outputs.{ToolInput, ToolOutput}
use gestalt_agentic_software.Agents.Specialists.{specialists, specialists-AreSpecialists}
use gestalt_agentic_software.Graph.{Specialists, run_cycle}
use gestalt_agentic_software.Tools.Registry.{ToolRegistry}
use gestalt_agentic_software.Tools.Outside.{Outside}
use gestalt_agentic_software.Runtime.{Host, World}
use gestalt_agentic_software.Config.{GestaltSettings}
use gestalt_agentic_software.Python.Dict.{string_key, Dict}

module _ (settings : GestaltSettings) (host : Host) (outside : Outside) where
  -- The tools of the program.
  abbrev pub tool_registry : ToolRegistry World ToolInput ToolOutput
  tool_registry = register_tools host outside settings (record { tools = [] })

  -- The agents of the program.
  abbrev pub agents : Specialists
  agents = specialists settings host outside.coercions tool_registry

  module _ {prompt : String} (setup : IsSetUp settings host prompt) where
    -- The same for a request of which every plan names nodes only.
    pub program-follows :
        (limit : ℕ) (request : CycleRequest) (w : World)
        → 13 ≤ limit
        → 3 ≤ str_len request.objective
        → is_blank (codes request.objective) ≡ false
        → Dict.get request.metadata "pending_agents" ≡ none
        → ((g : GestaltGraphState)
            → g.metadata ≡ request.metadata
            → All IsKnown (determine_next_agents g))
        → IsMemory w.bus
        → IsCycle host request (run_cycle settings host prompt agents limit request w).0
    program-follows = run_cycle-follows agents setup (
        specialists-AreSpecialists settings host outside.coercions tool_registry
          (register_tools-AreTame host outside settings))

    pub program-IsCycle :
        (limit : ℕ) (request : CycleRequest) (w : World)
        → 13 ≤ limit
        → 3 ≤ str_len request.objective
        → is_blank (codes request.objective) ≡ false
        → Dict.get request.metadata "pending_agents" ≡ none
        → scheduled_name (Dict.get request.metadata "scheduled_agent") ≡ none
        → IsMemory w.bus
        → IsCycle host request (run_cycle settings host prompt agents limit request w).0
    program-IsCycle = run_cycle-IsCycle agents setup (
        specialists-AreSpecialists settings host outside.coercions tool_registry
          (register_tools-AreTame host outside settings))
