-- ===== src/Examples/Agents.antt =====
-- The theorems on the agents at concrete inputs.
use gestalt_agentic_software.Orchestrator.Order.{IsRoute, determine_next_agents-IsRoute}
use gestalt_agentic_software.Orchestrator.Distinct.{IsDistinct, dedupe-IsDistinct}
use gestalt_agentic_software.BaseAgent.Turn.{recover, run}
use gestalt_agentic_software.BaseAgent.Artifacts.{Agent, summary_only}
use gestalt_agentic_software.BaseAgent.Run.{Extends, run-Extends}
use gestalt_agentic_software.BaseAgent.Clock.{Advances}
use gestalt_agentic_software.Orchestrator.Score.{
  cohesion_of-IsScore, cohesion_of-zero, cohesion_of_monotone,
}
use gestalt_agentic_software.Protocol.Models.{GestaltMessage}
use gestalt_agentic_software.Orchestrator.Agents.{dedupe, determine_next_agents}
use gestalt_agentic_software.Prelude.{List, arith, false, ◌≡◌, [], true, refl, ◌∷◌, String, mem_str}
use gestalt_agentic_software.Orchestrator.Cohesion.{cohesion_of}
use gestalt_agentic_software.Prelude.Int.{pos, ◌≤ℤ◌}
use gestalt_agentic_software.Blackboard.{CohesionInputs}
use gestalt_agentic_software.Python.Exec.{Exc, ExcKind, pure, ok}
use gestalt_agentic_software.Protocol.Reports.{AgentContextEnvelope, GestaltGraphState}
use gestalt_agentic_software.BaseAgent.Failure.{IsMonotone, IsFailed, recover-IsFailed}
use gestalt_agentic_software.Examples.Data.{settings, host, state, world}
use gestalt_agentic_software.Python.Dict
use gestalt_agentic_software.Python.Dict.{string_key}

abbrev watcher : Agent
watcher = record {
  agent_name = "monitor";
  system_prompt = "Watch the queue.";
  produce_artifacts = λ context messages state. pure (summary_only "The queue is calm.");
}

host-IsMonotone : IsMonotone host
host-IsMonotone = record { later = λ m n h. omega arith }

watcher-Advances :
    (c : AgentContextEnvelope) (m : List GestaltMessage) (g : GestaltGraphState)
    → Advances (watcher.produce_artifacts c m g)
watcher-Advances c m g = record { at = λ s. record { later = omega arith; memory = λ k. k } }

run-Extends_example :
    (after : GestaltGraphState) × ((run settings host watcher state world).0 ≡ ok after)
    × Extends "monitor" state after
run-Extends_example =
    run-Extends settings host watcher host-IsMonotone watcher-Advances (omega arith) state world

abbrev stumble : Exc
stumble = record { kind = ExcKind.runtime_error; message = "no connection" }

recover-IsFailed_example :
    (after : GestaltGraphState) × ((recover settings host watcher
        (record { instant = 0; aware = true })
        state
        stumble
        (record { world = world; approvals = [] })).0
      ≡ ok after)
    × IsFailed "monitor" stumble state after
recover-IsFailed_example =
    recover-IsFailed settings host watcher state stumble (record { instant = 0; aware = true })
      (record { world = world; approvals = [] }) (omega arith) (omega arith)

abbrev calm : CohesionInputs
calm = record {
  stats_samples = 0;
  failed_commands = 1;
  risk_total = 120;
  risk_rows = 3;
  supports_vector_search = false;
}

abbrev worse : CohesionInputs
worse = record calm { failed_commands = 4; risk_total = 200 }

cohesion_of-IsScore_example :
    (pos 0 ≤ℤ cohesion_of settings (pos 95) worse)
    × (cohesion_of settings (pos 95) worse ≤ℤ pos 100)
cohesion_of-IsScore_example = cohesion_of-IsScore settings (pos 95) worse

cohesion_of_monotone_example :
    cohesion_of settings (pos 60) worse ≤ℤ cohesion_of settings (pos 95) calm
cohesion_of_monotone_example =
    cohesion_of_monotone settings (pos 60) (pos 95) calm worse (omega arith) (omega arith)
      (omega arith) (omega arith) refl (omega arith)

cohesion_of-zero_example : cohesion_of settings (pos 95) worse ≤ℤ cohesion_of settings (pos 0) worse
cohesion_of-zero_example = cohesion_of-zero settings (pos 95) worse (omega arith)

dedupe-IsDistinct_example :
    IsDistinct (dedupe [] ("monitor" ∷ "optimizer" ∷ "monitor" ∷ []))
    × ((x : String)
        → mem_str x (dedupe [] ("monitor" ∷ "optimizer" ∷ "monitor" ∷ []))
          ≡ mem_str x ("monitor" ∷ "optimizer" ∷ "monitor" ∷ []))
dedupe-IsDistinct_example = dedupe-IsDistinct ("monitor" ∷ "optimizer" ∷ "monitor" ∷ [])

determine_next_agents-IsRoute_example : IsRoute (determine_next_agents state)
unfolding Dict.get
determine_next_agents-IsRoute_example = determine_next_agents-IsRoute state refl
