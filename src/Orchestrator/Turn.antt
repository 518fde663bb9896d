-- ===== src/Orchestrator/Turn.antt =====
-- gestalt/orchestrator.py: what the orchestrator does in its turn.
use gestalt_agentic_software.BaseAgent.Artifacts.{
  Agent, AgentArtifacts, check_artifacts, summary_only,
}
use gestalt_agentic_software.BaseAgent.Context.{make_message}
use gestalt_agentic_software.Orchestrator.Agents.{pending_agents, decision_to_node}
use gestalt_agentic_software.Orchestrator.Cohesion.{evaluate_cohesion}
use gestalt_agentic_software.Orchestrator.Reasoning.{validate_reasoning}
use gestalt_agentic_software.Orchestrator.Values.{array_of, string_of}
use gestalt_agentic_software.Gateway.{complete_structured, preference_text}
use gestalt_agentic_software.Protocol.Validation.{check_approval, check_summary}
use gestalt_agentic_software.Prelude.Int.{pos}
use gestalt_agentic_software.Protocol.Enums.{AgentDecision, GestaltEventType, GestaltMessageRole}
use gestalt_agentic_software.Config.{GestaltSettings}
use gestalt_agentic_software.Protocol.Reports.{
  GestaltGraphState, AgentContextEnvelope, EventApproval,
}
use gestalt_agentic_software.Python.Exec.{
  Result, ok, raise_with, Exec, key_error, ◌>>=◌, lift, pure, ◌>>◌, modify, quoted,
}
use gestalt_agentic_software.Protocol.Models.{Metadata, GestaltMessage}
use gestalt_agentic_software.Python.Values.{Value, array, nil, str}
use gestalt_agentic_software.Prelude.{
  List, String, [], none, some, ◌∷◌, map, ◌+++◌, ◌++◌, ◌*◌, ◌+◌, length,
}
use gestalt_agentic_software.Python.Dict
use gestalt_agentic_software.Python.Dict.{Dict, string_key}
use gestalt_agentic_software.Runtime.{Host, World, Session}
use gestalt_agentic_software.Runtime
use gestalt_agentic_software.Events.Interface

module _ (settings : GestaltSettings) (host : Host) where
  -- The token is validated, which reads the clock once more, then registered and appended.
  unfoldable pub issue_peer_approval :
      GestaltGraphState → String → String → GestaltEventType → String → Exec Session EventApproval
  unfolding check_approval Interface.approve Runtime.utc_now Runtime.new_uuid
  issue_peer_approval state source target type rationale = do
    issued ← Runtime.on_world (Runtime.utc_now host)
    id ← Runtime.on_world Runtime.new_uuid
    now ← Runtime.on_world (Runtime.utc_now host)
    approval ← lift (
        check_approval now.instant (record {
          approval_id = id;
          trace_id = state.trace_id;
          source_agent = source;
          target_agent = target;
          permitted_event = type;
          rationale = rationale;
          expires_at = record issued {
            instant = issued.instant + settings.events.approval_ttl_seconds * 1000000;
          };
        }))
    Runtime.on_bus (Interface.approve approval)
    modify (λ s. record s { approvals = s.approvals ++ approval ∷ [] })
    pure approval

  -- self.settings.agents[self.agent_name].model_preference
  abbrev pub preference : Result String
  preference = elim (Dict.get settings.agents "orchestrator") [
    | none ↦ raise_with key_error (quoted "orchestrator")
    | some policy ↦ ok (preference_text policy.model_preference)
  ]

  abbrev pub routing_payload : Value → List Value → Metadata
  routing_payload next rest =
      ("summary", str ("Orchestrator routed the next step to " +++ host.value_text next +++ "."))
      ∷ ("next_agents", array (array_of (next ∷ rest)))
      ∷ []

  -- The branch of `produce_artifacts` that routes to the next agent. A name that is no text fails
  -- the validation of the approval.
  unfoldable pub route :
      AgentContextEnvelope
      → GestaltGraphState
      → String
      → Value
      → List Value
      → Exec Session AgentArtifacts
  unfolding complete_structured validate_reasoning issue_peer_approval make_message decision_to_node
      check_artifacts array_of preference_text string_of
  route context state system_prompt next rest = do
    tier ← lift preference
    reasoning ← Runtime.on_world (
        complete_structured validate_reasoning host settings.models system_prompt
          ("Route the objective: " +++ context.objective) state.stats (some tier)
          (some (routing_payload next rest)))
    name ← lift (string_of next)
    issue_peer_approval state "orchestrator" name GestaltEventType.peer_signal
        ("Orchestrator approved tightly scoped coordination for " +++ name +++ ".")
    message ← Runtime.on_world (
        make_message host state.trace_id GestaltMessageRole.orchestrator "orchestrator" name
          reasoning.summary [])
    decision ← lift (decision_to_node name)
    lift (
        check_artifacts (record (summary_only reasoning.summary) {
          messages = message ∷ [];
          decisions = decision ∷ [];
          metrics =
              ("planned_agents", host.floats.of_int (pos (length reasoning.next_agents))) ∷ [];
          metadata_updates =
              ("current_node", str name)
              ∷ ("pending_agents", array (array_of rest))
              ∷ ("next_node", str name)
              ∷ [];
        }))

  unfoldable pub finalize : GestaltGraphState → Exec Session AgentArtifacts
  unfolding evaluate_cohesion check_summary check_artifacts Runtime.utc_now Runtime.new_uuid
  finalize state = do
    score ← evaluate_cohesion settings state
    id ← Runtime.on_world Runtime.new_uuid
    now ← Runtime.on_world (Runtime.utc_now host)
    summary ← lift (
        check_summary (record {
          cycle_id = id;
          trace_id = state.trace_id;
          objective = state.objective;
          completed_actions = map (λ r. r.summary) state.execution_reports;
          pending_actions = [];
          decisions = state.decisions ++ AgentDecision.finalize ∷ [];
          cohesion_score = score;
          security_risk_score = state.stats.security_risk_score;
          produced_at = now;
        }))
    lift (
        check_artifacts (record (summary_only "Orchestrator finalized the cycle.") {
          decisions = AgentDecision.finalize ∷ [];
          latest_summary = some summary;
          metadata_updates =
              ("current_node", str "orchestrator")
              ∷ ("next_node", str "__end__")
              ∷ ("pending_agents", array nil)
              ∷ [];
        }))

  -- `if pending_agents: … pop(0) …`
  unfoldable pub dispatch :
      AgentContextEnvelope → GestaltGraphState → String → List Value → Exec Session AgentArtifacts
  dispatch context state system_prompt [] = finalize state
  dispatch context state system_prompt (next ∷ rest) = route context state system_prompt next rest

  unfoldable pub produce_artifacts :
      String
      → AgentContextEnvelope
      → List GestaltMessage
      → GestaltGraphState
      → Exec Session AgentArtifacts
  produce_artifacts system_prompt context messages state = do
    pending ← lift (pending_agents state)
    dispatch context state system_prompt pending

  -- The orchestrator, with the text of its prompt.
  unfoldable pub orchestrator : String → Agent
  orchestrator system_prompt = record {
    agent_name = "orchestrator";
    system_prompt = system_prompt;
    produce_artifacts = produce_artifacts system_prompt;
  }
