-- ===== src/App/Plans.antt =====
-- What the requests of gestalt/main.py make the orchestrator plan.
use gestalt_agentic_software.Python.Values.{bool, array}
use gestalt_agentic_software.Protocol.Reports.{CycleRequest, TriggerAuditRequest, GestaltGraphState}
use gestalt_agentic_software.Orchestrator.Agents.{determine_next_agents, scheduled_name}
use gestalt_agentic_software.Graph.{scheduler_request}
use gestalt_agentic_software.App.Handlers.{audit_request, text_array}
use gestalt_agentic_software.Prelude.{List, String, str_eq, ◌≡◌, false, none, ◌∷◌, [], true, refl}
use gestalt_agentic_software.Python.Dict
use gestalt_agentic_software.Python.Dict.{Dict, string_key}

-- A state of a cycle for the request: with its metadata, and nothing planned yet.
abbrev pub Plans : List String → CycleRequest → Type 0
Plans names request =
    (state : GestaltGraphState)
    → state.metadata ≡ request.metadata
    → determine_next_agents state ≡ names

pub audit_request-Plans :
    (payload : TriggerAuditRequest)
    → scheduled_name (Dict.get payload.metadata "scheduled_agent") ≡ none
    → Plans ("security_audit" ∷ []) (audit_request payload)
unfolding audit_request determine_next_agents
audit_request-Plans payload free state same =
    rw
      (
        same,
        Dict.get-put (Dict.put payload.metadata "force_audit" (bool true)) "audit_scope"
            "scheduled_agent" (array (text_array payload.scope)),
        Dict.get-put payload.metadata "force_audit" "scheduled_agent" (bool true),
        free,
        Dict.get-put (Dict.put payload.metadata "force_audit" (bool true)) "audit_scope"
            "force_audit" (array (text_array payload.scope)),
        Dict.get-put payload.metadata "force_audit" "force_audit" (bool true),
      )
      refl

-- The other entries of the metadata are those of the payload.
pub audit_request-pending :
    (payload : TriggerAuditRequest)
    → Dict.get payload.metadata "pending_agents" ≡ none
    → Dict.get (audit_request payload).metadata "pending_agents" ≡ none
unfolding audit_request
audit_request-pending payload fresh =
    rw
      (
        Dict.get-put (Dict.put payload.metadata "force_audit" (bool true)) "audit_scope"
            "pending_agents" (array (text_array payload.scope)),
        Dict.get-put payload.metadata "force_audit" "pending_agents" (bool true),
      )
      fresh

pub scheduled-Plans :
    (objective name : String)
    → str_eq name "" ≡ false
    → Plans (name ∷ []) (scheduler_request objective name)
unfolding scheduler_request determine_next_agents Dict.get
scheduled-Plans objective name named state same = rw (same, named) refl
