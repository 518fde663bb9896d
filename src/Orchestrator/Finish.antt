-- ===== src/Orchestrator/Finish.antt =====
-- The turn that ends a cycle: with no pending agent the orchestrator writes the summary.
use gestalt_agentic_software.Orchestrator.Score.{cohesion_of-IsScore}
use gestalt_agentic_software.Blackboard.{compute_cohesion_inputs}
use gestalt_agentic_software.Python.Returns.{Returns}
use gestalt_agentic_software.Orchestrator.Cohesion.{evaluate_cohesion, cohesion_of}
use gestalt_agentic_software.Python.Values.{str, array, nil}
use gestalt_agentic_software.Orchestrator.Turn.{finalize}
use gestalt_agentic_software.Protocol.Enums.{AgentDecision}
use gestalt_agentic_software.Orchestrator.Setup.{IsSetUp, IsSane, IsReady}
use gestalt_agentic_software.Protocol.Validation.{in_score_range, check_summary}
use gestalt_agentic_software.Prelude.{
  String, ◌≡◌, [], true, ◌++◌, ◌∷◌, arith, map, some, ◌+◌, le→leb, refl,
}
use gestalt_agentic_software.Runtime.{Host, Session}
use gestalt_agentic_software.BaseAgent.Artifacts.{AgentArtifacts, summary_only, check_artifacts}
use gestalt_agentic_software.Config.{GestaltSettings}
use gestalt_agentic_software.Prelude.Int.{ℤ, pos, ◌≤ℤ◌}
use gestalt_agentic_software.Protocol.Reports.{GestaltGraphState, AgentExecutionReport}
use gestalt_agentic_software.Protocol.Models.{GestaltSummary, Datetime}
use gestalt_agentic_software.Python.Dict.{string_key}
use gestalt_agentic_software.Runtime
use native.Mathlib.Nat.{le_trans}

abbrev pub finished : GestaltSummary → AgentArtifacts
finished summary = record (summary_only "Orchestrator finalized the cycle.") {
  decisions = AgentDecision.finalize ∷ [];
  latest_summary = some summary;
  metadata_updates =
      ("current_node", str "orchestrator")
      ∷ ("next_node", str "__end__")
      ∷ ("pending_agents", array nil)
      ∷ [];
}

-- The artifacts of the last turn: a summary of the state, with every decision and no pending action.
pub record IsFinish (state : GestaltGraphState) (a : AgentArtifacts) : Type 0 where
  pub summary : GestaltSummary
  pub is : a ≡ finished summary
  pub trace_id : summary.trace_id ≡ state.trace_id
  pub objective : summary.objective ≡ state.objective
  pub pending_actions : summary.pending_actions ≡ []
  pub decisions : summary.decisions ≡ state.decisions ++ AgentDecision.finalize ∷ []
  pub completed :
      summary.completed_actions
      ≡ map (λ (r : AgentExecutionReport). r.summary) state.execution_reports

in_range : (z : ℤ) → (pos 0 ≤ℤ z) × (z ≤ℤ pos 100) → in_score_range z ≡ true
in_range z h = ground arith

module _ {settings : GestaltSettings} {host : Host} {prompt : String}
    (setup : IsSetUp settings host prompt) (state : GestaltGraphState) (sane : IsSane state) where
  pub finalize-Returns :
      (started : Datetime) (s : Session)
      → IsReady host started s
      → Returns (finalize settings host state) s (λ a t. IsFinish state a × IsReady host started t)
  unfolding finalize evaluate_cohesion check_summary check_artifacts Runtime.utc_now
      Runtime.new_uuid
  finalize-Returns started s ready =
      let score =
        cohesion_of settings state.stats.gestalt_cohesion_score
          (compute_cohesion_inputs s.world.board) in
      let summary : GestaltSummary = record {
        cycle_id = s.world.uuids;
        trace_id = state.trace_id;
        objective = state.objective;
        completed_actions = map (λ r. r.summary) state.execution_reports;
        pending_actions = [];
        decisions = state.decisions ++ AgentDecision.finalize ∷ [];
        cohesion_score = score;
        security_risk_score = state.stats.security_risk_score;
        produced_at = record { instant = host.clock s.world.ticks; aware = true };
      } in
      record {
        value = finished summary;
        final = record s {
          world = record s.world { uuids = s.world.uuids + 1; ticks = s.world.ticks + 1 };
        };
        eq = ground (
          arith,
          le→leb 3 _ sane.objective_long,
          in_range score (
              cohesion_of-IsScore settings state.stats.gestalt_cohesion_score
                (compute_cohesion_inputs s.world.board)),
          sane.risk,
        );
        holds = (
          record {
            summary = summary;
            is = refl;
            trace_id = refl;
            objective = refl;
            pending_actions = refl;
            decisions = refl;
            completed = refl;
          },
          record {
            later =
                le_trans ready.later
                  (setup.mono.later s.world.ticks (s.world.ticks + 1) (omega arith));
            memory = ready.memory;
          },
        );
      }
