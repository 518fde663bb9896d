-- ===== src/Examples/Cycle.antt =====
-- A whole cycle at concrete inputs: six specialists that only report.
use gestalt_agentic_software.Protocol.Enums.{SchedulerSource}
use gestalt_agentic_software.Graph.Response.{IsCycle, run_cycle-IsCycle}
use gestalt_agentic_software.Protocol.Reports.{CycleRequest}
use gestalt_agentic_software.Graph.Expiry.{run_cycle_cases, ReturnsUnexpired}
use gestalt_agentic_software.Graph.Rounds.{cycle_ends}
use gestalt_agentic_software.Graph.Specialist.{IsSpecialist, IsPlain}
use gestalt_agentic_software.Graph.Ends.{IsEnded}
use gestalt_agentic_software.Python.Exec.{pure, Exc, raised}
use gestalt_agentic_software.BaseAgent.Artifacts.{Agent, summary_only}
use gestalt_agentic_software.Orchestrator.Agents.{determine_next_agents, ordered_agents, dedupe}
use gestalt_agentic_software.Python.Returns.{Returns}
use gestalt_agentic_software.Orchestrator.Setup.{IsSane, IsSetUp}
use gestalt_agentic_software.Graph.Cycle.{AreSpecialists}
use gestalt_agentic_software.Graph.{Specialists, visit, run_cycle}
use gestalt_agentic_software.Prelude.{String, arith, ◌≤◌, refl, str_len, ◌≡◌, ◌∷◌, [], ◌⊎◌}
use gestalt_agentic_software.Examples.Data.{settings, host, state, world}
use gestalt_agentic_software.Python.Dict
use gestalt_agentic_software.Python.Dict.{string_key}
use gestalt_agentic_software.Events.Interface.{IsMemory}
use mathlib.Core.Path.{subst}

abbrev quiet : String → Agent
quiet name = record {
  agent_name = name;
  system_prompt = "Report.";
  produce_artifacts = λ context messages state. pure (summary_only "Nothing to report.");
}

quiet-IsSpecialist : (name : String) → 2 ≤ str_len name → IsSpecialist name (quiet name)
quiet-IsSpecialist name long = record {
  named = refl;
  long = long;
  advances = λ c m g. record { at = λ s. record { later = omega arith; memory = λ k. k } };
  plain = λ c m g. record {
    at = λ s a e.
        let is : summary_only "Nothing to report." ≡ a = cc in
        subst IsPlain is (record { no_metadata = refl; risk = λ r h. cc });
  };
}

abbrev specialists : Specialists
specialists = record {
  monitor = quiet "monitor";
  analyzer = quiet "analyzer";
  planner_executor = quiet "planner_executor";
  optimizer = quiet "optimizer";
  knowledge = quiet "knowledge";
  security_audit = quiet "security_audit";
}

all_quiet : AreSpecialists specialists
all_quiet = record {
  monitor = quiet-IsSpecialist "monitor" (omega arith);
  analyzer = quiet-IsSpecialist "analyzer" (omega arith);
  planner_executor = quiet-IsSpecialist "planner_executor" (omega arith);
  optimizer = quiet-IsSpecialist "optimizer" (omega arith);
  knowledge = quiet-IsSpecialist "knowledge" (omega arith);
  security_audit = quiet-IsSpecialist "security_audit" (omega arith);
}

set_up : IsSetUp settings host "Route with care."
unfolding Dict.get
set_up = record {
  mono = record { later = λ m n h. omega arith };
  prompt_clock = λ n. omega arith;
  policy = _;
  policy_eq = refl;
  mock = refl;
  top_k_low = omega arith;
  top_k_high = omega arith;
  prompt_text = omega arith;
}

state-IsSane : IsSane state
state-IsSane = record { objective_long = omega arith; objective_blank = refl; risk = refl }

-- The limit of LangGraph.
cycle_ends_example :
    Returns
      (visit settings host "Route with care." specialists 25 state)
      world
      (λ after v. IsEnded (determine_next_agents state) state after × IsMemory v.bus)
unfolding Dict.get
cycle_ends_example =
    cycle_ends {settings = settings} {host = host} {prompt = "Route with care."} specialists set_up
      all_quiet 25 state world (omega arith) state-IsSane refl refl (record { held = _; eq = refl })

-- The plan of that cycle.
planned_agents : determine_next_agents state ≡ "monitor" ∷ "analyzer" ∷ "optimizer" ∷ []
unfolding determine_next_agents ordered_agents dedupe Dict.get
planned_agents = refl

abbrev request : CycleRequest
request = record {
  objective = "Investigate the queue latency";
  source = SchedulerSource.api;
  metadata = [];
}

run_cycle-IsCycle_example :
    IsCycle host request (run_cycle settings host "Route with care." specialists 25 request world).0
unfolding Dict.get
run_cycle-IsCycle_example =
    run_cycle-IsCycle {settings = settings} {host = host} {prompt = "Route with care."} specialists
      set_up all_quiet 25 request world (omega arith) (omega arith) refl refl refl
      (record { held = _; eq = refl })

run_cycle_cases_example :
    ((exc : Exc) × ((run_cycle settings host "Route with care." specialists 25 request world).0
        ≡ raised exc))
    ⊎ ReturnsUnexpired settings host "Route with care." specialists 25 request world
run_cycle_cases_example =
    run_cycle_cases settings host "Route with care." specialists
      (record { later = λ m n h. omega arith }) 25 request world
