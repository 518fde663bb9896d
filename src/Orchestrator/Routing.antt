-- ===== src/Orchestrator/Routing.antt =====
-- The turn that routes: with an agent of the graph at the head of the pending ones it succeeds.
use gestalt_agentic_software.Prelude.Int.{pos}
use gestalt_agentic_software.Orchestrator.Steps.{IsAfter, on_world-Returns, message-Returns}
use gestalt_agentic_software.Orchestrator.Routed.{
  IsKnown-long, reasoning_text, reasoning_eq, approval-Returns, text_long,
}
use gestalt_agentic_software.Orchestrator.Order.{IsKnown}
use gestalt_agentic_software.Orchestrator.Agents.{decision_to_node}
use gestalt_agentic_software.Orchestrator.Reasoning.{validate_reasoning}
use gestalt_agentic_software.Python.Returns.{Returns, bind-Returns, lift-Returns}
use gestalt_agentic_software.Python.Exec.{ok}
use gestalt_agentic_software.Python.Values.{Float, str, array}
use gestalt_agentic_software.Orchestrator.Values.{string_of, array_of}
use gestalt_agentic_software.Gateway.{complete_structured, is_mocked, preference_text}
use gestalt_agentic_software.Orchestrator.Turn.{preference, route, routing_payload}
use gestalt_agentic_software.Protocol.Enums.{AgentDecision, GestaltMessageRole}
use gestalt_agentic_software.Protocol.Reports.{GestaltGraphState, AgentContextEnvelope}
use gestalt_agentic_software.Protocol.Models.{GestaltMessage, Datetime}
use gestalt_agentic_software.Orchestrator.Setup.{IsSetUp, IsReady}
use gestalt_agentic_software.BaseAgent.Artifacts.{AgentArtifacts, check_artifacts, summary_only}
use gestalt_agentic_software.Runtime.{Host, World, Session}
use gestalt_agentic_software.Config.{GestaltSettings}
use gestalt_agentic_software.Prelude.{
  String, List, ◌≡◌, ◌≤◌, arith, str_len, some, ◌∷◌, [], map, refl, le→leb, length,
}
use gestalt_agentic_software.Python.Dict.{string_key, Dict}

abbrev pub routed :
    String
    → List String
    → String
    → GestaltMessage
    → AgentDecision
    → Dict String Float
    → AgentArtifacts
routed name rest text message decision metrics = record (summary_only text) {
  messages = message ∷ [];
  decisions = decision ∷ [];
  metrics = metrics;
  metadata_updates =
      ("current_node", str name)
      ∷ ("pending_agents", array (array_of (map str rest)))
      ∷ ("next_node", str name)
      ∷ [];
}

pub artifacts_ok : (a : AgentArtifacts) → 8 ≤ str_len a.summary → check_artifacts a ≡ ok a
unfolding check_artifacts
artifacts_ok a long = ground (arith, le→leb 8 _ long)

-- What a turn that routes to `name` gives: the decision, a message, and where to go.
pub record IsRouting (name : String) (rest : List String) (a : AgentArtifacts) : Type 0 where
  pub text : String
  pub message : GestaltMessage
  pub decision : AgentDecision
  pub metrics : Dict String Float
  pub long : 8 ≤ str_len text
  pub decided : decision_to_node name ≡ ok decision
  pub is : a ≡ routed name rest text message decision metrics

module _ {settings : GestaltSettings} {host : Host} {prompt : String}
    (setup : IsSetUp settings host prompt) (state : GestaltGraphState) where
  tier_eq : preference settings host ≡ ok (preference_text setup.policy.model_preference)
  tier_eq = ground (arith, setup.policy_eq)

  reasoning-Returns :
      (name : String) (rest : List String) (user : String) (tier : String) (w : World)
      → Returns
          (complete_structured validate_reasoning host settings.models prompt user state.stats
            (some tier)
            (some (routing_payload settings host (str name) (map str rest))))
          w
          (λ r v. (16 ≤ str_len r.summary) × IsAfter w v)
  unfolding complete_structured is_mocked
  reasoning-Returns name rest user tier w = record {
    value = record { summary = reasoning_text host name; next_agents = name ∷ rest };
    final = w;
    eq = ground (arith, setup.mock, reasoning_eq setup state name rest);
    holds = (text_long host name, record { later = omega arith; bus = refl });
  }

  pub route-Returns :
      (context : AgentContextEnvelope) (name : String) (rest : List String) (started : Datetime)
      (s : Session)
      → IsKnown name
      → IsReady host started s
      → Returns
          (route settings host context state prompt (str name) (map str rest))
          s
          (λ a t. IsRouting name rest a × IsReady host started t)
  unfolding route string_of check_artifacts
  route-Returns context name rest started s known ready =
      let P =
        λ (a : AgentArtifacts) (t : Session). IsRouting name rest a × IsReady host started t in
      let long = IsKnown-long name known in
      bind-Returns (λ _ t. IsReady host started t) P _ _ s (lift-Returns _ _ _ s tier_eq ready)
        λ tier t1 r1.
          bind-Returns _ P _ _ t1
            (on_world-Returns host setup.mono started _ _ t1 r1
              (reasoning-Returns name rest _ tier t1.world))
            λ reasoning t2 r2.
              bind-Returns _ P _ _ t2 (approval-Returns setup state name started t2 long r2.1)
                λ approval t3 r3.
                  bind-Returns _ P _ _ t3
                    (on_world-Returns host setup.mono started _ _ t3 r3 (
                      message-Returns host state.trace_id GestaltMessageRole.orchestrator
                        "orchestrator" name reasoning.summary [] t3.world (omega arith) long
                        (omega (arith, r2.0))))
                    λ message t4 r4.
                      bind-Returns (λ d t. (decision_to_node name ≡ ok d) × IsReady host started t)
                        P _ _ t4 (lift-Returns _ _ known.0 t4 known.1 (known.1, r4.1))
                        λ decision t5 r5.
                          let metrics =
                            (
                              "planned_agents",
                              host.floats.of_int (pos (length reasoning.next_agents)),
                            )
                            ∷ [] in
                          let a = routed name rest reasoning.summary message decision metrics in
                          let long_text : 8 ≤ str_len reasoning.summary = omega (arith, r2.0) in
                          lift-Returns P _ a t5 (artifacts_ok a long_text) (
                            record {
                              text = reasoning.summary;
                              message = message;
                              decision = decision;
                              metrics = metrics;
                              long = long_text;
                              decided = r5.0;
                              is = refl;
                            },
                            r5.1,
                          )
