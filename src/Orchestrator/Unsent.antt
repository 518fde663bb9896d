-- ===== src/Orchestrator/Unsent.antt =====
-- The orchestrator's turn calls nothing outside.
use gestalt_agentic_software.Prelude.Int.{pos}
use gestalt_agentic_software.Orchestrator.Reasoning.{validate_reasoning}
use gestalt_agentic_software.BaseAgent.ServicesRun.{gateway-outside}
use gestalt_agentic_software.Runtime
use gestalt_agentic_software.Stats.Model.{GestaltStats}
use gestalt_agentic_software.Orchestrator.Values.{string_of, array_of}
use gestalt_agentic_software.Orchestrator.Agents.{pending_agents, decision_to_node}
use gestalt_agentic_software.BaseAgent.Artifacts.{check_artifacts, summary_only}
use gestalt_agentic_software.Python.Exec.{lift, Result}
use gestalt_agentic_software.Gateway.{complete_structured}
use gestalt_agentic_software.BaseAgent.Context.{make_message}
use gestalt_agentic_software.Protocol.Models.{GestaltMessage, Metadata, Uuid}
use gestalt_agentic_software.Python.Values.{Value, str, array}
use gestalt_agentic_software.Orchestrator.Cohesion.{evaluate_cohesion}
use gestalt_agentic_software.Protocol.Enums.{GestaltEventType, GestaltMessageRole}
use gestalt_agentic_software.Orchestrator.Turn.{
  finalize, issue_peer_approval, dispatch, orchestrator, produce_artifacts, route, preference,
  routing_payload,
}
use gestalt_agentic_software.Prelude.{
  String, ◌≡◌, arith, List, ◌∷◌, [], Option, refl, ◌+++◌, some, length,
}
use gestalt_agentic_software.BaseAgent.Behaves.{IsStep, Runs, then-Behaves, lift-Runs}
use gestalt_agentic_software.Protocol.Reports.{GestaltGraphState, AgentContextEnvelope}
use gestalt_agentic_software.Config.{GestaltSettings}
use gestalt_agentic_software.BaseAgent.Carried.{IsCarried, IsCarried→IsStep, unsent-Runs}
use gestalt_agentic_software.Runtime.{World, Host, Session}

module _ {R : World → World → Type 0} (carried : IsCarried R) (settings : GestaltSettings)
    (host : Host) where
  finalize-Runs : (state : GestaltGraphState) → Runs R (finalize settings host state)
  finalize-Runs state = unsent-Runs carried _ λ s. same s
    where
      same : (s : Session) → (finalize settings host state s).1.world.outside ≡ s.world.outside
      same s = unfold finalize evaluate_cohesion in ground arith

  abbrev laws : IsStep R
  laws = IsCarried→IsStep carried

  approval-Runs :
      (state : GestaltGraphState) (source target : String) (type : GestaltEventType)
      (rationale : String)
      → Runs R (issue_peer_approval settings host state source target type rationale)
  approval-Runs state source target type rationale = unsent-Runs carried _ λ s. same s
    where
      same :
          (s : Session)
          → (issue_peer_approval settings host state source target type rationale s).1.world.outside
            ≡ s.world.outside
      same s = unfold issue_peer_approval in ground arith

  message-Runs :
      (trace_id : Uuid) (role : GestaltMessageRole) (sender recipient content : String)
      (metadata : Metadata)
      → Runs R
          (Runtime.on_world (make_message host trace_id role sender recipient content metadata))
  unfolding make_message Runtime.utc_now Runtime.new_uuid
  message-Runs trace_id role sender recipient content metadata = unsent-Runs carried _ (λ s. refl)

  gateway-Runs :
      {A : Type 0} (validate : Metadata → Result A) (system user : String) (stats : GestaltStats)
      (tier : Option String) (mock : Option Metadata)
      → Runs R (
          Runtime.on_world
            (complete_structured validate host settings.models system user stats tier mock))
  gateway-Runs validate system user stats tier mock =
      unsent-Runs carried _
        λ s. gateway-outside validate host settings.models system user stats tier mock s.world

  route-Runs :
      (c : AgentContextEnvelope) (state : GestaltGraphState) (prompt : String) (next : Value)
      (rest : List Value)
      → Runs R (route settings host c state prompt next rest)
  unfolding route
  route-Runs c state prompt next rest =
      then-Behaves laws _ (lift (preference settings host)) _ (lift-Runs laws _) λ tier.
        then-Behaves laws _ _ _
          (gateway-Runs validate_reasoning prompt ("Route the objective: " +++ c.objective)
            state.stats (some tier) (some (routing_payload settings host next rest)))
          λ reasoning. then-Behaves laws _ (lift (string_of next)) _ (lift-Runs laws _) λ name.
            then-Behaves laws _ _ _
              (approval-Runs state "orchestrator" name GestaltEventType.peer_signal
                ("Orchestrator approved tightly scoped coordination for " +++ name +++ "."))
              λ approval.
                then-Behaves laws _ _ _
                  (message-Runs state.trace_id GestaltMessageRole.orchestrator "orchestrator" name
                    reasoning.summary [])
                  λ message.
                    then-Behaves laws _ (lift (decision_to_node name)) _ (lift-Runs laws _)
                      λ decision. lift-Runs laws (
                        check_artifacts (record (summary_only reasoning.summary) {
                          messages = message ∷ [];
                          decisions = decision ∷ [];
                          metrics =
                              (
                                "planned_agents",
                                host.floats.of_int (pos (length reasoning.next_agents)),
                              )
                              ∷ [];
                          metadata_updates =
                              ("current_node", str name)
                              ∷ ("pending_agents", array (array_of rest))
                              ∷ ("next_node", str name)
                              ∷ [];
                        }))

  dispatch-Runs :
      (c : AgentContextEnvelope) (state : GestaltGraphState) (prompt : String)
      (pending : List Value)
      → Runs R (dispatch settings host c state prompt pending)
  unfolding dispatch
  dispatch-Runs c state prompt [] = finalize-Runs state
  dispatch-Runs c state prompt (next ∷ rest) = route-Runs c state prompt next rest

  pub produce-Runs :
      (prompt : String) (c : AgentContextEnvelope) (m : List GestaltMessage)
      (state : GestaltGraphState)
      → Runs R ((orchestrator settings host prompt).produce_artifacts c m state)
  unfolding orchestrator produce_artifacts
  produce-Runs prompt c m state =
      then-Behaves laws _ (lift (pending_agents state)) _ (lift-Runs laws _)
        (dispatch-Runs c state prompt)
