-- ===== src/Agents/Specialists.antt =====
-- The six agents of gestalt/agents as the specialists of the graph.
use gestalt_agentic_software.BaseAgent.Clock.{Goes}
use gestalt_agentic_software.Agents.Plain.{
  analyzer-Behaves, planner_executor-Behaves, optimizer-Behaves, knowledge-Behaves,
}
use gestalt_agentic_software.Agents.Auditing.{security_audit-Behaves}
use gestalt_agentic_software.Agents.Monitoring.{monitor-Behaves}
use gestalt_agentic_software.Graph.Cycle.{AreSpecialists}
use gestalt_agentic_software.Agents.Knowledge.{knowledge_agent}
use gestalt_agentic_software.Agents.Monitor.{monitor_agent}
use gestalt_agentic_software.Agents.SecurityAudit.{security_audit_agent}
use gestalt_agentic_software.Graph.Specialist.{IsPlain, IsSpecialist}
use gestalt_agentic_software.Agents.Optimizer.{optimizer_agent}
use gestalt_agentic_software.BaseAgent.Behaves.{
  Behaves, Behaves→Advances, Behaves→Gives, Goes-IsStep,
}
use gestalt_agentic_software.Agents.PlannerExecutor.{planner_executor_agent}
use gestalt_agentic_software.Agents.Analyzer.{analyzer_agent}
use gestalt_agentic_software.Tools.Effects.{AreTame}
use gestalt_agentic_software.BaseAgent.Artifacts.{AgentArtifacts}
use gestalt_agentic_software.Graph.{Specialists}
use gestalt_agentic_software.Python.Exec.{Exec}
use gestalt_agentic_software.Tools.Outputs.{ToolInput, ToolOutput}
use gestalt_agentic_software.Protocol.Models.{GestaltMessage}
use gestalt_agentic_software.Tools.Registry.{ToolRegistry}
use gestalt_agentic_software.Tools.Fields.{Coercions}
use gestalt_agentic_software.Protocol.Reports.{AgentContextEnvelope, GestaltGraphState}
use gestalt_agentic_software.Runtime.{Host, World, Session}
use gestalt_agentic_software.Prelude.{String, List, ◌≤◌, str_len, refl, arith}
use gestalt_agentic_software.Config.{GestaltSettings}

unfoldable pub specialists :
    GestaltSettings → Host → Coercions → ToolRegistry World ToolInput ToolOutput → Specialists
specialists settings host coercions tools = record {
  monitor = monitor_agent settings host coercions tools;
  analyzer = analyzer_agent settings host coercions tools;
  planner_executor = planner_executor_agent settings host coercions tools;
  optimizer = optimizer_agent settings host tools;
  knowledge = knowledge_agent settings host tools;
  security_audit = security_audit_agent settings host coercions tools;
}

-- A logic that behaves, under a name, is a specialist.
logic-IsSpecialist :
    (name prompt : String)
    (logic : AgentContextEnvelope
      → List GestaltMessage
      → GestaltGraphState
      → Exec Session AgentArtifacts)
    → 2 ≤ str_len name
    → ((c : AgentContextEnvelope) (m : List GestaltMessage) (g : GestaltGraphState)
        → Behaves Goes IsPlain (logic c m g))
    → IsSpecialist name
        (record { agent_name = name; system_prompt = prompt; produce_artifacts = logic })
logic-IsSpecialist name prompt logic long h = record {
  named = refl;
  long = long;
  advances = λ c m g. Behaves→Advances (logic c m g) (h c m g);
  plain = λ c m g. Behaves→Gives IsPlain (logic c m g) (h c m g);
}

module _ (settings : GestaltSettings) (host : Host) (coercions : Coercions)
    (tools : ToolRegistry World ToolInput ToolOutput) (tame : AreTame Goes tools) where
  -- Each of the six agents does what the graph asks of a specialist of its name: its logic never turns
  -- the clock back and keeps a bus in memory, and its artifacts write no metadata and report a security
  -- risk from 0 to 100 if they report statistics. It is assumed that the tools keep the clock and the
  -- bus.
  pub specialists-AreSpecialists : AreSpecialists (specialists settings host coercions tools)
  unfolding specialists monitor_agent analyzer_agent planner_executor_agent optimizer_agent
      knowledge_agent security_audit_agent
  specialists-AreSpecialists = record {
    monitor =
        logic-IsSpecialist "monitor" _ _ (omega arith)
          λ c m g. monitor-Behaves Goes-IsStep settings host g coercions tools tame c;
    analyzer =
        logic-IsSpecialist "analyzer" _ _ (omega arith)
          λ c m g. analyzer-Behaves Goes-IsStep settings host coercions tools tame c g;
    planner_executor =
        logic-IsSpecialist "planner_executor" _ _ (omega arith)
          λ c m g. planner_executor-Behaves Goes-IsStep settings host coercions tools tame c g;
    optimizer =
        logic-IsSpecialist "optimizer" _ _ (omega arith)
          λ c m g. optimizer-Behaves Goes-IsStep settings host coercions tools tame c g;
    knowledge =
        logic-IsSpecialist "knowledge" _ _ (omega arith)
          λ c m g. knowledge-Behaves Goes-IsStep settings host coercions tools tame c g;
    security_audit =
        logic-IsSpecialist "security_audit" _ _ (omega arith)
          λ c m g. security_audit-Behaves Goes-IsStep settings host g coercions tools tame c;
  }
