-- ===== src/Graph/Cycle.antt =====
-- The steps of a cycle: to a specialist, and back.
use gestalt_agentic_software.Orchestrator.Setup.{IsSane}
use gestalt_agentic_software.Orchestrator.Values.{array_of}
use gestalt_agentic_software.Orchestrator.Routing.{IsRouting}
use gestalt_agentic_software.BaseAgent.Update.{IsUpdate}
use gestalt_agentic_software.Python.Values.{str, array}
use gestalt_agentic_software.Protocol.Reports.{GestaltGraphState, AgentExecutionReport}
use gestalt_agentic_software.BaseAgent.Outputs.{apply_state_update, merge_stats}
use gestalt_agentic_software.BaseAgent.Artifacts.{Agent}
use gestalt_agentic_software.Orchestrator.Agents.{decision_to_node}
use gestalt_agentic_software.Orchestrator.Order.{IsKnown}
use gestalt_agentic_software.Graph.Specialist.{IsSpecialist}
use gestalt_agentic_software.Prelude.{
  String, str_eq, ◌≡◌, false, Bool-cases, inl, sym, str_eq_iff, inr, List, arith, some, refl, map,
  ◌++◌, ◌∷◌, [], ◌∙◌,
}
use gestalt_agentic_software.Graph.{Specialists, specialist}
use gestalt_agentic_software.Python.Dict
use gestalt_agentic_software.Python.Dict.{string_key, update}
use mathlib.Core.Path.{subst}

-- Each node of the graph is a specialist of its name.
pub record AreSpecialists (agents : Specialists) : Type 0 where
  pub monitor : IsSpecialist "monitor" agents.monitor
  pub analyzer : IsSpecialist "analyzer" agents.analyzer
  pub planner_executor : IsSpecialist "planner_executor" agents.planner_executor
  pub optimizer : IsSpecialist "optimizer" agents.optimizer
  pub knowledge : IsSpecialist "knowledge" agents.knowledge
  pub security_audit : IsSpecialist "security_audit" agents.security_audit

-- A known name is one of the six.
known_one :
    (name : String)
    → IsKnown name
    → str_eq name "monitor" ≡ false
    → str_eq name "analyzer" ≡ false
    → str_eq name "planner_executor" ≡ false
    → str_eq name "optimizer" ≡ false
    → str_eq name "knowledge" ≡ false
    → str_eq name "security_audit" ≡ false
    → ⊥
unfolding decision_to_node
known_one name (d, e) e1 e2 e3 e4 e5 e6 = ground arith

-- What holds of the six names holds of every known one.
pub known_cases :
    (P : String → Type 0) (name : String)
    → IsKnown name
    → P "monitor"
    → P "analyzer"
    → P "planner_executor"
    → P "optimizer"
    → P "knowledge"
    → P "security_audit"
    → P name
known_cases P name known m a p o k s = pick "monitor" m λ e1. pick "analyzer" a λ e2.
    pick "planner_executor" p λ e3. pick "optimizer" o λ e4.
      pick "knowledge" k
        λ e5. pick "security_audit" s λ e6. absurd (known_one name known e1 e2 e3 e4 e5 e6)
  where
    pick : (lit : String) → P lit → (str_eq name lit ≡ false → P name) → P name
    pick lit yes_case no_case = elim (Bool-cases (str_eq name lit)) [
      | inl same ↦ subst P (sym ((str_eq_iff name lit).0 same)) yes_case
      | inr other ↦ no_case other
    ]

-- A known name leads to its specialist.
pub specialist-IsSpecialist :
    (agents : Specialists) (name : String)
    → AreSpecialists agents
    → IsKnown name
    → (agent : Agent) × (specialist agents name ≡ some agent) × IsSpecialist name agent
unfolding specialist
specialist-IsSpecialist agents name good known =
    known_cases (λ n. (agent : Agent) × (specialist agents n ≡ some agent) × IsSpecialist n agent)
      name known (agents.monitor, refl, good.monitor) (agents.analyzer, refl, good.analyzer)
      (agents.planner_executor, refl, good.planner_executor)
      (agents.optimizer, refl, good.optimizer) (agents.knowledge, refl, good.knowledge)
      (agents.security_audit, refl, good.security_audit)

-- After a turn that routes: where to go, what is left, and the report.
pub record IsRouted (name : String) (rest : List String) (before after : GestaltGraphState)
    : Type 0 where
  pub next_node : Dict.get after.metadata "next_node" ≡ some (str name)
  pub pending : Dict.get after.metadata "pending_agents" ≡ some (array (array_of (map str rest)))
  pub sane : IsSane before → IsSane after
  pub reports :
      (r : AgentExecutionReport) × (after.execution_reports ≡ before.execution_reports ++ r ∷ [])
      × (r.agent_name ≡ "orchestrator")

pub IsRouting→IsRouted :
    (name : String) (rest : List String) (before after : GestaltGraphState)
    → IsUpdate "orchestrator" (IsRouting name rest) before after
    → IsRouted name rest before after
unfolding apply_state_update merge_stats Dict.update
IsRouting→IsRouted name rest before after u =
    rw (u.is, u.given.is)
      (record {
        next_node = Dict.get-put _ "next_node" "next_node" (str name);
        pending =
            Dict.get-put _ "next_node" "pending_agents" (str name)
            ∙ Dict.get-put _ "pending_agents" "pending_agents" _;
        sane = λ s. record {
          objective_long = s.objective_long;
          objective_blank = s.objective_blank;
          risk = s.risk;
        };
        reports = (u.report, refl, u.named);
      })
