-- ===== src/Agents/Optimizer.antt =====
-- gestalt/agents/optimizer.py
use gestalt_agentic_software.Prelude.Int.{pos}
use gestalt_agentic_software.Protocol.Enums.{MemoryKind, DecisionConfidence}
use gestalt_agentic_software.Python.Values.{object, str, field, end, int}
use gestalt_agentic_software.Stats.Policy.{derive_model_policy}
use gestalt_agentic_software.Agents.Prompts.{optimizer_prompt}
use gestalt_agentic_software.Protocol.Reports.{
  GestaltGraphState, AgentContextEnvelope, OptimizationProposal,
}
use gestalt_agentic_software.BaseAgent.Artifacts.{
  Agent, check_artifacts, AgentArtifacts, summary_only,
}
use gestalt_agentic_software.BaseAgent.Make.{make_memory}
use gestalt_agentic_software.Protocol.Constraints.{check_proposal}
use gestalt_agentic_software.Tools.Outputs.{ToolInput, ToolOutput}
use gestalt_agentic_software.Python.Exec.{Result, ok, Exec, ◌>>=◌, lift}
use gestalt_agentic_software.Tools.Registry.{ToolRegistry}
use gestalt_agentic_software.Protocol.Models.{Metadata}
use gestalt_agentic_software.Runtime.{Host, World, Session}
use gestalt_agentic_software.Config.{GestaltSettings}
use gestalt_agentic_software.Tools.Fields.{model, long_text, and_then}
use gestalt_agentic_software.Prelude.{String, ◌∷◌, [], ◌+++◌, length}
use gestalt_agentic_software.BaseAgent.Services
use gestalt_agentic_software.Runtime

pub record OptimizerReasoning : Type 0 where
  pub summary : String
  pub preferred_route : String

unfoldable pub optimizer_reasoning : Metadata → Result OptimizerReasoning
unfolding model long_text
optimizer_reasoning payload = model ("summary" ∷ "preferred_route" ∷ []) payload (
    and_then (long_text payload "summary" 16) λ s.
      and_then (long_text payload "preferred_route" 3)
        λ r. ok (record { summary = s; preferred_route = r }))

module _ (host : Host) where
  unfoldable pub make_proposal :
      GestaltGraphState → String → String → Exec Session OptimizationProposal
  unfolding check_proposal Runtime.utc_now Runtime.new_uuid
  make_proposal state summary preferred_route = do
    id ← Runtime.on_world Runtime.new_uuid
    now ← Runtime.on_world (Runtime.utc_now host)
    lift (
        check_proposal (record {
          proposal_id = id;
          trace_id = state.trace_id;
          title = "Adaptive routing optimization";
          summary = summary;
          expected_benefit = "Reduce latency variance while preserving cohesion.";
          config_patch =
              ("models", object (field "preferred_route" (str preferred_route) end)) ∷ [];
          prompt_overrides =
              ("optimizer", "Prefer concise, high-signal optimization reports.") ∷ [];
          model_routing_overrides = ("default", preferred_route) ∷ [];
          confidence = DecisionConfidence.high;
          created_at = now;
        }))

module _ (settings : GestaltSettings) (host : Host)
    (tools : ToolRegistry World ToolInput ToolOutput) where
  unfoldable pub optimizer_artifacts :
      AgentContextEnvelope → GestaltGraphState → Exec Session AgentArtifacts
  optimizer_artifacts context state = do
    history ←
        Services.query_blackboard settings host "optimizer" tools state "optimization proposal" 3 []
    latency ← Services.query_prometheus settings host "optimizer" tools state "latency_p95_ms"
    let route = (derive_model_policy state.stats).preferred_route
    reasoning ←
        Services.complete_structured settings host "optimizer" optimizer_reasoning optimizer_prompt
          ("Optimize objective: " +++ context.objective) state.stats
          ((
            "summary",
            str (
                "Optimizer recommends using the "
                +++ route
                +++ " route while tightening prompt overlays because latency is "
                +++ host.fixed_text latency.value
                +++ "ms."),
          )
            ∷ ("preferred_route", str route)
            ∷ [])
    proposal ← make_proposal host state reasoning.summary reasoning.preferred_route
    memory ←
        make_memory host state.trace_id MemoryKind.optimization "Optimizer recommendation"
          reasoning.summary ("optimizer" ∷ reasoning.preferred_route ∷ [])
          (("historical_matches", int (pos (length history.matches))) ∷ [])
    lift (
        check_artifacts (record (summary_only reasoning.summary) {
          memories = memory ∷ [];
          optimization_proposals = proposal ∷ [];
          metrics = ("latency_p95_ms", latency.value) ∷ [];
        }))

  unfoldable pub optimizer_agent : Agent
  unfolding optimizer_artifacts
  optimizer_agent = record {
    agent_name = "optimizer";
    system_prompt = optimizer_prompt;
    produce_artifacts = λ context messages state. optimizer_artifacts context state;
  }
