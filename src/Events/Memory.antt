-- ===== src/Events/Memory.antt =====
-- `MemoryEventBus` of gestalt/events/bus.py. `now` is the value of `datetime.now(UTC)`. An approval
-- in the bus has passed its validator, so its expiry carries a time zone and the two compare.
use gestalt_agentic_software.Prelude.Int.{ℤ, pos, negsuc}
use gestalt_agentic_software.Protocol.Reports.{EventApproval}
use gestalt_agentic_software.Python.Exec.{
  Exec, Result, ok, raise_with, event_approval_error, ◌>>=◌, gets, ◌>>◌, lift, modify, pure,
}
use gestalt_agentic_software.Protocol.Enums.{is_peer_signal, same_event_type}
use gestalt_agentic_software.Prelude.{
  Option, String, [], ℕ, List, some, if◌then◌else◌, none, leb, suc, drop, not, length, ◌-◌, str_eq,
  zero, ◌++◌, ◌∷◌,
}
use gestalt_agentic_software.Protocol.Models.{Uuid, GestaltEvent}
use gestalt_agentic_software.Python.Dict
use gestalt_agentic_software.Python.Dict.{Dict, number_key, string_key}

pub record MemoryEventBus : Type 0 where
  pub approvals : Dict Uuid EventApproval
  pub events : List GestaltEvent

abbrev pub fresh : MemoryEventBus
fresh = record { approvals = []; events = [] }

abbrev reject {ℓ} : {A : Type ℓ} → String → Result A
reject message = raise_with event_approval_error message

-- event.target_agent or ""
abbrev pub or_empty : Option String → String
or_empty none = ""
or_empty (some s) = s

-- The tests on the approval that was found, in their order.
unfoldable pub check_approval : ℕ → GestaltEvent → Option EventApproval → Result (Unit {0})
check_approval now event none = reject "Approval token is unknown."
check_approval now event (some approval) =
    if leb approval.expires_at.instant now
    then reject "Approval token is expired."
    else if not (same_event_type approval.permitted_event event.event_type)
    then reject "Approval token does not permit this event type."
    else if not (str_eq approval.source_agent event.source_agent)
    then reject "Approval token source does not match the event source."
    else if not (str_eq approval.target_agent (or_empty event.target_agent))
    then reject "Approval token target does not match the event target."
    else ok tt

unfoldable pub check_token : MemoryEventBus → ℕ → GestaltEvent → Option Uuid → Result (Unit {0})
unfolding check_approval
check_token bus now event none = reject "Peer signals require an orchestrator approval token."
check_token bus now event (some id) = check_approval now event (Dict.get bus.approvals id)

unfoldable pub validate_event : MemoryEventBus → ℕ → GestaltEvent → Result (Unit {0})
unfolding check_token is_peer_signal
validate_event bus now event =
    if is_peer_signal event.event_type then check_token bus now event event.approval_id else ok tt

unfoldable pub close : Exec MemoryEventBus (Unit {0})
close bus = (ok tt, record { approvals = []; events = [] })

unfoldable pub approve : EventApproval → Exec MemoryEventBus EventApproval
approve approval bus =
    (ok approval, record bus { approvals = Dict.put bus.approvals approval.approval_id approval })

unfoldable pub publish : ℕ → GestaltEvent → Exec MemoryEventBus GestaltEvent
unfolding validate_event
publish now event = do
  bus ← gets (λ b. b)
  lift (validate_event bus now event)
  modify (λ b. record b { events = b.events ++ event ∷ [] })
  pure event

-- self._events[-limit:]
unfoldable pub list_events : MemoryEventBus → ℤ → List GestaltEvent
list_events bus (pos zero) = bus.events
list_events bus (pos (suc n)) = drop (length bus.events - suc n) bus.events
list_events bus (negsuc n) = drop (suc n) bus.events
