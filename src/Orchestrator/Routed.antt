-- ===== src/Orchestrator/Routed.antt =====
-- What the turn that routes does on its way: the reasoning and the approval.
use gestalt_agentic_software.Events.Interface.{memory_bus}
use gestalt_agentic_software.Python.Returns.{Returns, bind-Returns, lift-Returns}
use gestalt_agentic_software.Orchestrator.Turn.{routing_payload, issue_peer_approval}
use gestalt_agentic_software.Orchestrator.Reasoning.{validate_reasoning}
use gestalt_agentic_software.Protocol.Validation.{min_length, check_approval, ensure_future_expiry}
use gestalt_agentic_software.Protocol.Enums.{GestaltEventType}
use gestalt_agentic_software.Python.Exec.{ok, lift, ◌>>◌, modify, pure}
use gestalt_agentic_software.Protocol.Reports.{GestaltGraphState, EventApproval}
use gestalt_agentic_software.Protocol.Models.{Datetime, Uuid}
use gestalt_agentic_software.Orchestrator.Setup.{IsSetUp, IsReady}
use gestalt_agentic_software.Python.Values.{Value, str}
use gestalt_agentic_software.Runtime.{Host, Session}
use gestalt_agentic_software.Orchestrator.Order.{IsKnown}
use gestalt_agentic_software.Config.{GestaltSettings}
use gestalt_agentic_software.Orchestrator.Agents.{decision_to_node}
use gestalt_agentic_software.Prelude.{
  String, List, ◌≤◌, map, str_len, arith, str_eq, ◌≡◌, true, ◌+++◌, ◌∷◌, [], ap, le→leb, sym, refl,
  str_eq_iff, ◌+◌, ◌*◌, ◌++◌, ℕ,
}
use gestalt_agentic_software.Orchestrator.Values.{elements, strings, array_of, string_of}
use gestalt_agentic_software.Python.Dict
use gestalt_agentic_software.Python.Dict.{string_key, Dict}
use gestalt_agentic_software.Runtime
use gestalt_agentic_software.Events.Interface
use gestalt_agentic_software.Events.Memory
use native.Mathlib.Nat.{le_trans}
use mathlib.Core.Path.{subst}
use text.Mathlib.TextLemmas.{length-append as count-append}

pub elements-array_of : (vs : List Value) → elements (array_of vs) ≡ vs
unfolding elements array_of
elements-array_of [] = refl
elements-array_of (v ∷ vs) = ap (λ (l : List Value). v ∷ l) (elements-array_of vs)

strings-map : (names : List String) → strings (map str names) ≡ ok names
unfolding strings
strings-map [] = refl
strings-map (n ∷ ns) = ground (arith, strings-map ns)

same_long : (name lit : String) → 2 ≤ str_len lit → str_eq name lit ≡ true → 2 ≤ str_len name
same_long name lit long same =
    subst (λ (s : String). 2 ≤ str_len s) (sym ((str_eq_iff name lit).0 same)) long

names_eq : (rest : List String) → strings (elements (array_of (map str rest))) ≡ ok rest
names_eq rest = rw (elements-array_of (map str rest)) (strings-map rest)

-- The names of the nodes have two characters.
pub IsKnown-long : (name : String) → IsKnown name → 2 ≤ str_len name
unfolding decision_to_node
IsKnown-long name (d, e) = ground (
  arith,
  same_long name "monitor" (omega arith),
  same_long name "analyzer" (omega arith),
  same_long name "planner_executor" (omega arith),
  same_long name "optimizer" (omega arith),
  same_long name "knowledge" (omega arith),
  same_long name "security_audit" (omega arith),
)

module _ (host : Host) where
  pub reasoning_text : String → String
  reasoning_text name =
      "Orchestrator routed the next step to " +++ host.value_text (str name) +++ "."

  pub text_long : (name : String) → 16 ≤ str_len (reasoning_text name)
  unfolding reasoning_text
  text_long name = omega (
    arith,
    count-append "Orchestrator routed the next step to " (host.value_text (str name) +++ "."),
  )

module _ {settings : GestaltSettings} {host : Host} {prompt : String}
    (setup : IsSetUp settings host prompt) (state : GestaltGraphState) where
  approve-Returns :
      (a : EventApproval) (started : Datetime) (s : Session)
      → IsReady host started s
      → Returns (Runtime.on_bus (Interface.approve a)) s (λ _ t. IsReady host started t)
  unfolding Interface.approve Memory.approve
  approve-Returns a started s ready = record {
    value = a;
    final = record s {
      world = record s.world { bus = memory_bus (Memory.approve a ready.memory.held).1 };
    };
    eq = rw ready.memory.eq refl;
    holds = record {
      later = ready.later;
      memory = record { held = (Memory.approve a ready.memory.held).1; eq = refl };
    };
  }

  rationale_long :
      (name : String)
      → min_length 8 ("Orchestrator approved tightly scoped coordination for " +++ name +++ ".")
        ≡ true
  rationale_long name = le→leb 8 _ (
      omega (
        arith,
        count-append "Orchestrator approved tightly scoped coordination for " (name +++ "."),
      ))

  pub reasoning_eq :
      (name : String) (rest : List String)
      → validate_reasoning (routing_payload settings host (str name) (map str rest))
        ≡ ok (record { summary = reasoning_text host name; next_agents = name ∷ rest })
  unfolding validate_reasoning Dict.get reasoning_text array_of elements string_of
  reasoning_eq name rest = ground (arith, names_eq rest, le→leb 16 _ (text_long host name))

  abbrev issued : String → ℕ → Uuid → EventApproval
  issued name n id = record {
    approval_id = id;
    trace_id = state.trace_id;
    source_agent = "orchestrator";
    target_agent = name;
    permitted_event = GestaltEventType.peer_signal;
    rationale = "Orchestrator approved tightly scoped coordination for " +++ name +++ ".";
    expires_at = record {
      instant = host.clock n + settings.events.approval_ttl_seconds * 1000000;
      aware = true;
    };
  }

  approval_ok :
      (name : String) (n : ℕ) (id : Uuid)
      → 2 ≤ str_len name
      → check_approval (host.clock (n + 1)) (issued name n id) ≡ ok (issued name n id)
  unfolding check_approval ensure_future_expiry
  approval_ok name n id long =
      ground (arith, setup.prompt_clock n, le→leb 2 _ long, rationale_long name)

  pub approval-Returns :
      (name : String) (started : Datetime) (s : Session)
      → 2 ≤ str_len name
      → IsReady host started s
      → Returns
          (issue_peer_approval settings host state "orchestrator" name GestaltEventType.peer_signal
            ("Orchestrator approved tightly scoped coordination for " +++ name +++ "."))
          s
          (λ _ t. IsReady host started t)
  unfolding issue_peer_approval Runtime.utc_now Runtime.new_uuid
  approval-Returns name started s long ready =
      let n = s.world.ticks in
      let later : Session = record s {
        world = record s.world { ticks = n + 1 + 1; uuids = s.world.uuids + 1 };
      } in
      let approval = issued name n s.world.uuids in
      let ready_later : IsReady host started later = record {
        later = le_trans ready.later (setup.mono.later n (n + 1 + 1) (omega arith));
        memory = ready.memory;
      } in
      let k =
        bind-Returns (λ _ t. IsReady host started t) (λ _ t. IsReady host started t)
          (lift (check_approval (host.clock (n + 1)) approval))
          (λ a. do
            Runtime.on_bus (Interface.approve a)
            modify (λ (s' : Session). record s' { approvals = s'.approvals ++ a ∷ [] })
            pure a)
          later
          (lift-Returns _ _ approval later (approval_ok name n s.world.uuids long) ready_later)
          λ a t ready_t.
            bind-Returns (λ _ u. IsReady host started u) _ _ _ t
              (approve-Returns a started t ready_t)
              λ b u ready_u. record {
                value = a;
                final = record u { approvals = u.approvals ++ a ∷ [] };
                eq = refl;
                holds = record { later = ready_u.later; memory = ready_u.memory };
              } in
      record { value = k.value; final = k.final; eq = k.eq; holds = k.holds }
