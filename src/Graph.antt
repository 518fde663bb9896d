-- ===== src/Graph.antt =====
-- gestalt/graph.py: the graph whose nodes are the orchestrator and the specialist agents. LangGraph
-- is the loop `visit`: it runs a node, then follows an edge, for at most `limit` nodes.
pub mod Specialist
pub mod Plan
pub mod Cycle
pub mod Ends
pub mod Rounds
pub mod Expiry
pub mod Response
pub mod Carried
use gestalt_agentic_software.BaseAgent.Turn.{run}
use gestalt_agentic_software.BaseAgent.Artifacts.{Agent}
use gestalt_agentic_software.Python.Floats.{float_zero, float_one}
use gestalt_agentic_software.Prelude.Int.{pos}
use gestalt_agentic_software.Protocol.Enums.{SchedulerSource}
use gestalt_agentic_software.Stats.Levels.{LoadLevel, PerformanceTier}
use gestalt_agentic_software.Orchestrator.Turn.{orchestrator}
use gestalt_agentic_software.Python.Exec.{
  Exec, raise, ◌>>=◌, graph_recursion_error, lift, pure, ◌>>◌, key_error, validated, quoted,
}
use gestalt_agentic_software.Stats.Model.{GestaltStats}
use gestalt_agentic_software.Python.Values.{Value, str}
use gestalt_agentic_software.Config.{GestaltSettings}
use gestalt_agentic_software.Protocol.Validation.{check_approval, min_length}
use gestalt_agentic_software.Protocol.Models.{Datetime}
use gestalt_agentic_software.Protocol.Reports.{CycleRequest, GestaltGraphState, EventApproval}
use gestalt_agentic_software.Prelude.{
  Option, String, List, if◌then◌else◌, ℕ, some, str_eq, none, suc, zero, ◌∷◌, [], false,
}
use gestalt_agentic_software.Python.Dict
use gestalt_agentic_software.Python.Dict.{Dict, string_key}
use gestalt_agentic_software.Runtime.{Host, World, Session}
use gestalt_agentic_software.Runtime

-- The specialists, by their names as nodes.
pub record Specialists : Type 0 where
  pub monitor : Agent
  pub analyzer : Agent
  pub planner_executor : Agent
  pub optimizer : Agent
  pub knowledge : Agent
  pub security_audit : Agent

-- The targets of the conditional edges.
unfoldable pub specialist : Specialists → String → Option Agent
specialist a name =
    if str_eq name "monitor"
    then some a.monitor
    else if str_eq name "analyzer"
    then some a.analyzer
    else if str_eq name "planner_executor"
    then some a.planner_executor
    else if str_eq name "optimizer"
    then some a.optimizer
    else if str_eq name "knowledge"
    then some a.knowledge
    else if str_eq name "security_audit"
    then some a.security_audit
    else none

abbrev pub node_text : Host → Option Value → String
node_text host none = "__end__"
node_text host (some (str s)) = s
node_text host (some v) = host.value_text v

-- str(state.metadata.get("next_node", "__end__"))
unfoldable pub route_from_orchestrator : Host → GestaltGraphState → String
route_from_orchestrator host state = node_text host (Dict.get state.metadata "next_node")

abbrev pub default_stats : Datetime → GestaltStats
default_stats now = record {
  load_level = LoadLevel.very_low;
  performance_tier = PerformanceTier.low;
  cost_efficiency_score = pos 100;
  security_risk_score = pos 0;
  gestalt_cohesion_score = pos 100;
  agent_health = [];
  queue_depth = pos 0;
  active_cycles = pos 0;
  average_latency_ms = float_zero;
  p95_latency_ms = float_zero;
  error_rate = float_zero;
  failure_count = pos 0;
  success_count = pos 0;
  cost_per_cycle = float_zero;
  blackboard_consistency = float_one;
  collaboration_success_rate = float_one;
  open_security_findings = pos 0;
  optimizer_triggered = false;
  last_updated = now.instant;
}

unfoldable pub build_graph_state : Host → CycleRequest → Exec World GestaltGraphState
unfolding Runtime.utc_now Runtime.new_uuid
build_graph_state host request = do
  trace ← Runtime.new_uuid
  cycle ← Runtime.new_uuid
  now ← Runtime.utc_now host
  lift (
      validated (min_length 3 request.objective) (record {
        trace_id = trace;
        cycle_id = cycle;
        source = request.source;
        objective = request.objective;
        stats = default_stats now;
        decisions = [];
        messages = [];
        commands = [];
        command_results = [];
        memories = [];
        optimization_proposals = [];
        audit_reports = [];
        execution_reports = [];
        latest_summary = none;
        approvals = [];
        metadata = request.metadata;
      }))

-- Each approval in the state passes its validator again, which reads the clock.
unfoldable pub revalidate : Host → List EventApproval → Exec World (Unit {0})
unfolding check_approval Runtime.utc_now
revalidate host [] = pure tt
revalidate host (a ∷ as') = do
  now ← Runtime.utc_now host
  lift (check_approval now.instant a)
  revalidate host as'

unfoldable pub scheduler_request : String → String → CycleRequest
scheduler_request objective scheduled_agent = record {
  objective = objective;
  source = SchedulerSource.scheduler;
  metadata = ("scheduled_agent", str scheduled_agent) ∷ [];
}

module _ (settings : GestaltSettings) (host : Host) (prompt : String) (agents : Specialists) where
  -- The conditional edges of the orchestrator: to the end, or into the named agent.
  abbrev pub follow :
      (Agent → GestaltGraphState → Exec World GestaltGraphState)
      → String
      → GestaltGraphState
      → Exec World GestaltGraphState
  follow enter name state =
      if str_eq name "__end__" then pure state else elim (specialist agents name) [
        | none ↦ raise key_error (quoted name)
        | some agent ↦ enter agent state
      ]

  abbrev pub out_of_steps : Exec World GestaltGraphState
  out_of_steps =
      raise graph_recursion_error "Recursion limit reached without hitting a stop condition."

  abbrev pub orchestrate : GestaltGraphState → Exec World GestaltGraphState
  orchestrate = run settings host (orchestrator settings host prompt)

  -- From the node of the orchestrator, with room for `limit` nodes. With room for one only, no agent
  -- runs after it.
  unfoldable pub visit : ℕ → GestaltGraphState → Exec World GestaltGraphState
  visit zero state = out_of_steps
  visit (suc zero) state = do
    after ← orchestrate state
    follow (λ _ _. out_of_steps) (route_from_orchestrator host after) after
  visit (suc (suc limit)) state = do
    let again = visit limit
    after ← orchestrate state
    follow (λ agent s. do next ← run settings host agent s; again next)
        (route_from_orchestrator host after) after

  unfoldable pub run_cycle : ℕ → CycleRequest → Exec World GestaltGraphState
  run_cycle limit request = do
    state ← build_graph_state host request
    result ← visit limit state
    revalidate host result.approvals
    pure result
