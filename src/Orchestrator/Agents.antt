-- ===== src/Orchestrator/Agents.antt =====
-- gestalt/orchestrator.py: which agents an objective calls for.
use gestalt_agentic_software.Orchestrator.Values.{list_of, truthy}
use gestalt_agentic_software.Protocol.Enums.{AgentDecision}
use gestalt_agentic_software.Protocol.Reports.{GestaltGraphState}
use gestalt_agentic_software.Python.Exec.{Result, ok, raise_with, key_error, quoted}
use gestalt_agentic_software.Python.Values.{Value, str}
use gestalt_agentic_software.Prelude.{
  Bool, List, Option, String, [], false, if◌then◌else◌, lower, none, some, true, ℕ, ◌∷◌, any, map,
  mem_str, str_eq, ◌++◌, contains, ◌||◌, codes,
}
use gestalt_agentic_software.Python.Dict
use gestalt_agentic_software.Python.Dict.{Dict, string_key}

-- DECISION_TO_NODE
unfoldable pub decision_to_node : String → Result AgentDecision
decision_to_node name =
    if str_eq name "monitor"
    then ok AgentDecision.monitor
    else if str_eq name "analyzer"
    then ok AgentDecision.analyze
    else if str_eq name "planner_executor"
    then ok AgentDecision.plan_and_execute
    else if str_eq name "optimizer"
    then ok AgentDecision.optimize
    else if str_eq name "knowledge"
    then ok AgentDecision.curate_knowledge
    else if str_eq name "security_audit"
    then ok AgentDecision.run_security_audit
    else raise_with key_error (quoted name)

-- any(keyword in objective for keyword in keywords)
abbrev pub mentions : List ℕ → List String → Bool
mentions objective keywords = any (λ k. contains objective (codes k)) keywords

abbrev pub when_then : Bool → String → List String
when_then true name = name ∷ []
when_then false name = []

-- The loop that drops an agent that is in the list already.
unfoldable pub dedupe : List String → List String → List String
dedupe deduped [] = deduped
dedupe deduped (agent ∷ rest) =
    dedupe (if mem_str agent deduped then deduped else deduped ++ agent ∷ []) rest

-- `isinstance(scheduled, str) and scheduled`
abbrev pub scheduled_name : Option Value → Option String
scheduled_name (some (str s)) = if str_eq s "" then none else some s
scheduled_name _ = none

abbrev pub is_forced : Option Value → Bool
is_forced none = false
is_forced (some v) = truthy v

abbrev default_agents : List String
default_agents = "analyzer" ∷ "planner_executor" ∷ "optimizer" ∷ "knowledge" ∷ []

abbrev is_empty {ℓ} : {A : Type ℓ} → List A → Bool
is_empty [] = true
is_empty (x ∷ xs) = false

-- The agents that the objective and the statistics call for, in their order.
unfoldable pub ordered_agents : GestaltGraphState → List String
ordered_agents state =
    let objective = lower state.objective in
    when_then (is_empty state.execution_reports) "monitor"
    ++ (when_then (mentions objective ("audit" ∷ "security" ∷ "risk" ∷ "jailbreak" ∷ []))
          "security_audit"
        ++ (when_then
              (mentions objective (
                "analy" ∷ "diagn" ∷ "incident" ∷ "failure" ∷ "debug" ∷ "investig" ∷ "latency"
                ∷ "regression" ∷ []))
              "analyzer"
            ++ (when_then
                  (mentions objective ("execute" ∷ "deploy" ∷ "remediate" ∷ "fix" ∷ "run" ∷ []))
                  "planner_executor"
                ++ (when_then
                      (mentions objective ("optimiz" ∷ "cost" ∷ "latency" ∷ "performance" ∷ [])
                        || state.stats.optimizer_triggered)
                      "optimizer"
                    ++ when_then
                        (mentions objective ("knowledge" ∷ "learn" ∷ "summary" ∷ "memory" ∷ []))
                        "knowledge"))))

abbrev pub or_default_agents : List String → List String
or_default_agents [] = default_agents
or_default_agents (x ∷ xs) = x ∷ xs

abbrev pub plan : GestaltGraphState → Option String → List String
plan state (some scheduled) = scheduled ∷ []
plan state none =
    if is_forced (Dict.get state.metadata "force_audit")
    then "security_audit" ∷ []
    else dedupe [] (or_default_agents (ordered_agents state))

unfoldable pub determine_next_agents : GestaltGraphState → List String
unfolding ordered_agents dedupe truthy
determine_next_agents state =
    plan state (scheduled_name (Dict.get state.metadata "scheduled_agent"))

abbrev pub pending_of : GestaltGraphState → Option Value → Result (List Value)
pending_of state none = ok (map str (determine_next_agents state))
pending_of state (some v) = list_of v

-- The agents that are still to be visited, as `produce_artifacts` finds them.
unfoldable pub pending_agents : GestaltGraphState → Result (List Value)
unfolding determine_next_agents list_of
pending_agents state = pending_of state (Dict.get state.metadata "pending_agents")
