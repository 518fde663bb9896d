-- ===== src/Graph/Plan.antt =====
-- The orchestrator's two kinds of turn, as steps of a cycle.
use gestalt_agentic_software.BaseAgent.Artifacts.{AgentArtifacts}
use gestalt_agentic_software.Orchestrator.Success.{run-Returns}
use gestalt_agentic_software.Orchestrator.Finish.{IsFinish, finalize-Returns}
use gestalt_agentic_software.Orchestrator.Routing.{IsRouting, route-Returns}
use gestalt_agentic_software.BaseAgent.Update.{IsUpdate}
use gestalt_agentic_software.Orchestrator.Order.{IsKnown}
use gestalt_agentic_software.Python.Returns.{Returns, bind-Returns, lift-Returns, weaken-Returns}
use gestalt_agentic_software.Python.Values.{str, Value}
use gestalt_agentic_software.Python.Exec.{ok}
use gestalt_agentic_software.BaseAgent.Outputs.{persist_outputs}
use gestalt_agentic_software.BaseAgent.Turn.{seen, run}
use gestalt_agentic_software.Orchestrator.Turn.{orchestrator, produce_artifacts, dispatch}
use gestalt_agentic_software.Orchestrator.Agents.{
  pending_agents, determine_next_agents, ordered_agents,
}
use gestalt_agentic_software.Protocol.Reports.{GestaltGraphState}
use gestalt_agentic_software.Orchestrator.Setup.{IsSetUp, IsSane, IsReady}
use gestalt_agentic_software.Prelude.{String, ◌≡◌, List, refl, [], map, ◌∷◌, ◌∙◌, sym, arith}
use gestalt_agentic_software.Runtime.{Host, Session, World}
use gestalt_agentic_software.Config.{GestaltSettings}
use gestalt_agentic_software.Python.Dict.{string_key}
use gestalt_agentic_software.Events.Interface.{IsMemory}
use mathlib.Core.Path.{subst}

module _ {settings : GestaltSettings} {host : Host} {prompt : String}
    (setup : IsSetUp settings host prompt) (state : GestaltGraphState) (sane : IsSane state) where
  pending-seen : (s : Session) → pending_agents (seen state s) ≡ pending_agents state
  unfolding pending_agents determine_next_agents ordered_agents
  pending-seen s = refl

  pub run-IsRouting :
      (name : String) (rest : List String) (w : World)
      → pending_agents state ≡ ok (map str (name ∷ rest))
      → IsKnown name
      → IsMemory w.bus
      → Returns
          (run settings host (orchestrator settings host prompt) state)
          w
          (λ g v. IsUpdate "orchestrator" (IsRouting name rest) state g × IsMemory v.bus)
  unfolding orchestrator produce_artifacts dispatch persist_outputs
  run-IsRouting name rest w pending known memory =
      run-Returns setup state sane (IsRouting name rest) (λ a r. rw r.is r.long)
        (λ a b r. rw r.is refl)
        (λ c m started s ready.
          bind-Returns (λ p t. (p ≡ map str (name ∷ rest)) × IsReady host started t) _ _ _ s
            (lift-Returns _ _ (map str (name ∷ rest)) s (pending-seen s ∙ pending) (refl, ready))
            λ p t q.
              subst
                (λ (vs : List Value).
                  Returns (dispatch settings host c (seen state s) prompt vs) t
                    (λ a u. IsRouting name rest a × IsReady host started u))
                (sym q.0) (route-Returns setup (seen state s) c name rest started t known q.1))
        w memory

  IsSane-seen : (s : Session) → IsSane (seen state s)
  IsSane-seen s = record {
    objective_long = sane.objective_long;
    objective_blank = sane.objective_blank;
    risk = sane.risk;
  }

  unseen : (s : Session) (a : AgentArtifacts) → IsFinish (seen state s) a → IsFinish state a
  unseen s a f = record {
    summary = f.summary;
    is = f.is;
    trace_id = f.trace_id;
    objective = f.objective;
    pending_actions = f.pending_actions;
    decisions = f.decisions;
    completed = f.completed;
  }

  pub run-IsFinish :
      (w : World)
      → pending_agents state ≡ ok []
      → IsMemory w.bus
      → Returns
          (run settings host (orchestrator settings host prompt) state)
          w
          (λ g v. IsUpdate "orchestrator" (IsFinish state) state g × IsMemory v.bus)
  unfolding orchestrator produce_artifacts dispatch persist_outputs
  run-IsFinish w pending memory =
      run-Returns setup state sane (IsFinish state) (λ a r. rw r.is (omega arith))
        (λ a b r. rw r.is refl)
        (λ c m started s ready.
          bind-Returns (λ p t. (p ≡ []) × IsReady host started t) _ _ _ s
            (lift-Returns _ _ [] s (pending-seen s ∙ pending) (refl, ready))
            λ p t q.
              subst
                (λ (vs : List Value).
                  Returns (dispatch settings host c (seen state s) prompt vs) t
                    (λ a u. IsFinish state a × IsReady host started u))
                (sym q.0)
                (weaken-Returns _ _ _ t (λ a u f. (unseen s a f.0, f.1))
                  (finalize-Returns setup (seen state s) (IsSane-seen s) started t q.1)))
        w memory
