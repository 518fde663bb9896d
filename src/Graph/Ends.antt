-- ===== src/Graph/Ends.antt =====
-- What the end of a cycle is, and the last turn.
use mathlib.Core.List.{append_assoc}
use gestalt_agentic_software.Orchestrator.Routed.{elements-array_of}
use gestalt_agentic_software.Python.Exec.{ok}
use gestalt_agentic_software.Graph.Cycle.{known_cases}
use gestalt_agentic_software.Orchestrator.Values.{list_of, array_of}
use gestalt_agentic_software.Runtime.{Host}
use gestalt_agentic_software.Orchestrator.Agents.{pending_agents, pending_of}
use gestalt_agentic_software.Orchestrator.Order.{IsKnown}
use gestalt_agentic_software.Graph.{route_from_orchestrator, node_text}
use gestalt_agentic_software.Python.Values.{str, array, nil, Value}
use gestalt_agentic_software.Orchestrator.Finish.{IsFinish}
use gestalt_agentic_software.Protocol.Models.{GestaltSummary}
use gestalt_agentic_software.BaseAgent.Update.{IsUpdate}
use gestalt_agentic_software.BaseAgent.Outputs.{apply_state_update}
use gestalt_agentic_software.Protocol.Reports.{GestaltGraphState, AgentExecutionReport}
use gestalt_agentic_software.Prelude.{
  List, String, map, ◌∷◌, ◌≡◌, [], some, ◌++◌, ap, refl, ◌∙◌, str_eq, false,
}
use gestalt_agentic_software.Python.Dict
use gestalt_agentic_software.Python.Dict.{string_key, update}

-- The nodes of a cycle with a plan, in their order.
unfoldable pub visited : List String → List String
visited [] = "orchestrator" ∷ []
visited (x ∷ xs) = "orchestrator" ∷ x ∷ visited xs

abbrev pub reporters : GestaltGraphState → List String
reporters state = map (λ (r : AgentExecutionReport). r.agent_name) state.execution_reports

-- The end of a cycle: a summary with nothing pending, and one report of each node in its order.
pub record IsEnded (names : List String) (before after : GestaltGraphState) : Type 0 where
  pub summary : GestaltSummary
  pub summary_eq : after.latest_summary ≡ some summary
  pub pending_actions : summary.pending_actions ≡ []
  pub reports : reporters after ≡ reporters before ++ visited names

map-append :
    (xs ys : List AgentExecutionReport)
    → map (λ (r : AgentExecutionReport). r.agent_name) (xs ++ ys)
      ≡ map (λ (r : AgentExecutionReport). r.agent_name) xs
        ++ map (λ (r : AgentExecutionReport). r.agent_name) ys
map-append [] ys = refl
map-append (x ∷ xs) ys = ap (λ (l : List String). x.agent_name ∷ l) (map-append xs ys)

-- One report more is one name more.
pub reporters-next :
    (before after : GestaltGraphState) (r : AgentExecutionReport) (name : String)
    → after.execution_reports ≡ before.execution_reports ++ r ∷ []
    → r.agent_name ≡ name
    → reporters after ≡ reporters before ++ name ∷ []
reporters-next before after r name more named =
    ap (λ (l : List AgentExecutionReport). map (λ (x : AgentExecutionReport). x.agent_name) l) more
    ∙ map-append before.execution_reports (r ∷ [])
    ∙ ap (λ (n : String). reporters before ++ n ∷ []) named

pub IsFinish→IsEnded :
    (before after : GestaltGraphState)
    → IsUpdate "orchestrator" (IsFinish before) before after
    → (Dict.get after.metadata "next_node" ≡ some (str "__end__")) × IsEnded [] before after
unfolding apply_state_update Dict.update visited
IsFinish→IsEnded before after u = (
  rw (u.is, u.given.is)
      (Dict.get-put _ "pending_agents" "next_node" (array nil)
        ∙ Dict.get-put _ "next_node" "next_node" (str "__end__")),
  record {
    summary = u.given.summary;
    summary_eq = rw (u.is, u.given.is) refl;
    pending_actions = u.given.pending_actions;
    reports = reporters-next before after u.report "orchestrator" (rw u.is refl) u.named;
  },
)

-- Where the orchestrator's edge leads.
pub route_to :
    (host : Host) (state : GestaltGraphState) (name : String)
    → Dict.get state.metadata "next_node" ≡ some (str name)
    → route_from_orchestrator host state ≡ name
unfolding route_from_orchestrator
route_to host state name e = ap (node_text host) e

pub IsKnown-not_end : (name : String) → IsKnown name → str_eq name "__end__" ≡ false
IsKnown-not_end name known =
    known_cases (λ n. str_eq n "__end__" ≡ false) name known refl refl refl refl refl refl

pub pending-next :
    (state : GestaltGraphState) (rest : List String)
    → Dict.get state.metadata "pending_agents" ≡ some (array (array_of (map str rest)))
    → pending_agents state ≡ ok (map str rest)
unfolding pending_agents list_of
pending-next state rest e =
    ap (pending_of state) e ∙ ap (λ (vs : List Value). ok vs) (elements-array_of (map str rest))

pub visited-cons :
    (b : List String) (x : String) (xs : List String)
    → ((b ++ "orchestrator" ∷ []) ++ x ∷ []) ++ visited xs ≡ b ++ visited (x ∷ xs)
unfolding visited
visited-cons b x xs =
    append_assoc (b ++ "orchestrator" ∷ []) (x ∷ []) (visited xs)
    ∙ append_assoc b ("orchestrator" ∷ []) (x ∷ visited xs)
