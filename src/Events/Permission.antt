-- ===== src/Events/Permission.antt =====
-- What the buses promise: a peer signal is published only under an approval.
use gestalt_agentic_software.Protocol.Enums.{peer_signal, is_peer_signal, same_event_type_iff}
use gestalt_agentic_software.Python.Exec.{ok}
use gestalt_agentic_software.Protocol.Models.{GestaltEvent, Uuid}
use gestalt_agentic_software.Prelude.{ℕ, ◌<◌, ◌≡◌, some, arith, ◌↔◌, str_eq_iff, Option, none, refl}
use gestalt_agentic_software.Protocol.Reports.{EventApproval}
use gestalt_agentic_software.Python.Dict
use gestalt_agentic_software.Python.Dict.{number_key}
use gestalt_agentic_software.Events.Memory.{MemoryEventBus}
use gestalt_agentic_software.Events.Memory

-- The approval permits the event at the time `now`.
pub record Permits (a : EventApproval) (now : ℕ) (e : GestaltEvent) : Type 0 where
  pub unexpired : now < a.expires_at.instant
  pub event_type : a.permitted_event ≡ e.event_type
  pub source : a.source_agent ≡ e.source_agent
  pub target : a.target_agent ≡ Memory.or_empty e.target_agent

-- The bus holds, under the event's token, an approval that permits it.
pub record IsPermitted (bus : MemoryEventBus) (now : ℕ) (e : GestaltEvent) : Type 0 where
  pub id : Uuid
  pub approval : EventApproval
  pub token : e.approval_id ≡ some id
  pub held : Dict.get bus.approvals id ≡ some approval
  pub permits : Permits approval now e

module _ (now : ℕ) (e : GestaltEvent) where
  check_approval_iff :
      (a : EventApproval) → (Memory.check_approval now e (some a) ≡ ok tt) ↔ Permits a now e
  unfolding Memory.check_approval
  check_approval_iff a = ground (
    arith,
    same_event_type_iff a.permitted_event e.event_type,
    str_eq_iff a.source_agent e.source_agent,
    str_eq_iff a.target_agent (Memory.or_empty e.target_agent),
  )

  module _ (bus : MemoryEventBus) where
    found_sound :
        (id : Uuid) (o : Option EventApproval)
        → e.approval_id ≡ some id
        → Dict.get bus.approvals id ≡ o
        → Memory.check_approval now e o ≡ ok tt
        → IsPermitted bus now e
    unfolding Memory.check_approval
    found_sound id none token held h = cc
    found_sound id (some a) token held h = record {
      id = id;
      approval = a;
      token = token;
      held = held;
      permits = (check_approval_iff a).0 h;
    }

    token_sound :
        (t : Option Uuid)
        → e.approval_id ≡ t
        → Memory.check_token bus now e t ≡ ok tt
        → IsPermitted bus now e
    unfolding Memory.check_token
    token_sound none token h = cc
    token_sound (some id) token h = found_sound id (Dict.get bus.approvals id) token refl h

    token_complete : IsPermitted bus now e → Memory.check_token bus now e e.approval_id ≡ ok tt
    token_complete p =
        rw p.token
          (unfold Memory.check_token in rw p.held ((check_approval_iff p.approval).1 p.permits))

    -- A peer signal passes the memory bus exactly when the bus holds, under the event's token, an
    -- unexpired approval for its type, its source and its target.
    pub validate_event_iff :
        e.event_type ≡ peer_signal
        → (Memory.validate_event bus now e ≡ ok tt) ↔ IsPermitted bus now e
    validate_event_iff peer = (
      λ h. token_sound e.approval_id refl (rw (← is_token) h),
      λ p. rw is_token (token_complete p),
    )
      where
        is_token : Memory.validate_event bus now e ≡ Memory.check_token bus now e e.approval_id
        is_token = unfold Memory.validate_event is_peer_signal in rw peer
