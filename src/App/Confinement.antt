-- ===== src/App/Confinement.antt =====
-- What a cycle of the assembled program lets out.
use gestalt_agentic_software.Agents.Auditing.{security_audit-Behaves}
use gestalt_agentic_software.Agents.Plain.{
  analyzer-Behaves, planner_executor-Behaves, optimizer-Behaves, knowledge-Behaves,
}
use gestalt_agentic_software.Agents.Monitoring.{monitor-Behaves}
use gestalt_agentic_software.Graph.Carried.{specialist-all, run_cycle-Moves}
use gestalt_agentic_software.Protocol.Models.{GestaltMessage}
use gestalt_agentic_software.Protocol.Reports.{
  AgentContextEnvelope, GestaltGraphState, CycleRequest,
}
use gestalt_agentic_software.App.Cycle.{agents}
use gestalt_agentic_software.Graph.{specialist, run_cycle}
use gestalt_agentic_software.BaseAgent.Artifacts.{Agent}
use gestalt_agentic_software.Agents.SecurityAudit.{security_audit_agent}
use gestalt_agentic_software.Agents.Knowledge.{knowledge_agent}
use gestalt_agentic_software.Agents.Optimizer.{optimizer_agent}
use gestalt_agentic_software.Agents.PlannerExecutor.{planner_executor_agent}
use gestalt_agentic_software.BaseAgent.Behaves.{Behaves, Runs}
use gestalt_agentic_software.Agents.Analyzer.{analyzer_agent}
use gestalt_agentic_software.Tools.Implementations.Confinement.{Confined, register_tools-Carries}
use gestalt_agentic_software.Agents.Monitor.{monitor_agent}
use gestalt_agentic_software.Python.Exec.{Exec}
use gestalt_agentic_software.Agents.Specialists.{specialists}
use gestalt_agentic_software.BaseAgent.Carried.{
  IsCarried, Carries, Carries-IsCarried, IsCarried→IsStep,
}
use gestalt_agentic_software.Prelude.{String, ◌≡◌, some, List, ℕ, All}
use gestalt_agentic_software.Tools.Outside.{Outside}
use gestalt_agentic_software.Runtime.{Host, World, Session}
use gestalt_agentic_software.Config.{GestaltSettings}

module _ (settings : GestaltSettings) (host : Host) (outside : Outside) (prompt : String) where
  abbrev confined : IsCarried (Carries (Confined host outside settings))
  confined = Carries-IsCarried (Confined host outside settings)

  abbrev gives_up :
      {A : Type 0} {P : A → Type 0} {R : World → World → Type 0} (m : Exec Session A)
      → Behaves R P m
      → Runs R m
  gives_up m h = record { goes = h.goes; gives = λ s a e. tt }

  agents-Run :
      (name : String) (agent : Agent)
      → specialist (agents settings host outside) name ≡ some agent
      → (c : AgentContextEnvelope) (m : List GestaltMessage) (g : GestaltGraphState)
      → Runs (Carries (Confined host outside settings)) (agent.produce_artifacts c m g)
  unfolding specialists monitor_agent analyzer_agent planner_executor_agent optimizer_agent
      knowledge_agent security_audit_agent
  agents-Run =
      let laws = IsCarried→IsStep confined in
      let tame = register_tools-Carries host outside settings in
      specialist-all
        (λ agent.
          (c : AgentContextEnvelope) (m : List GestaltMessage) (g : GestaltGraphState)
          → Runs (Carries (Confined host outside settings)) (agent.produce_artifacts c m g))
        (agents settings host outside)
        (λ c m g. gives_up _ (monitor-Behaves laws settings host g outside.coercions _ tame c))
        (λ c m g. gives_up _ (analyzer-Behaves laws settings host outside.coercions _ tame c g))
        (λ c m g.
          gives_up _ (planner_executor-Behaves laws settings host outside.coercions _ tame c g))
        (λ c m g. gives_up _ (optimizer-Behaves laws settings host outside.coercions _ tame c g))
        (λ c m g. gives_up _ (knowledge-Behaves laws settings host outside.coercions _ tame c g))
        (λ c m g.
          gives_up _ (security_audit-Behaves laws settings host g outside.coercions _ tame c))

  -- Whatever the model and the remote servers answer, and whether the cycle returns or raises, a cycle of
  -- the assembled program makes only confined calls: an HTTP request goes to a URL that begins with an
  -- entry of the allowlist, unless the allowlist is empty, and a shell runs a command that contains no
  -- blocked term, in lower case, in a directory whose text begins with that of the workspace's root. The
  -- calls that were made before the cycle are assumed to be confined too.
  pub run_cycle-confined :
      (limit : ℕ) (request : CycleRequest) (w : World)
      → All (Confined host outside settings) w.outside
      → All
          (Confined host outside settings)
          (run_cycle settings host prompt (agents settings host outside) limit request w).1.outside
  run_cycle-confined limit request w before =
      ((run_cycle-Moves confined settings host prompt (agents settings host outside) agents-Run
            limit request).at
          w).keeps
        before
