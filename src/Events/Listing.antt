-- ===== src/Events/Listing.antt =====
-- The Redis bus beside the memory bus, and what `list_events` returns.
use gestalt_agentic_software.Protocol.Enums.{is_peer_signal}
use gestalt_agentic_software.Python.Exec.{ok}
use gestalt_agentic_software.Prelude.Int.{pos}
use gestalt_agentic_software.Protocol.Reports.{EventApproval}
use gestalt_agentic_software.Protocol.Models.{GestaltEvent, Uuid}
use gestalt_agentic_software.Prelude.{
  ℕ, List, length, ◌<◌, Option, take, ◌++◌, ◌≡◌, drop, min, some, ◌≤◌, Bool-cases, arith, none, suc,
  ◌↔◌, refl, ◌-◌, ◌∷◌, ◌⊎◌, ap, inl, inr, length-drop, zero, [], true, if◌then◌else◌,
}
use gestalt_agentic_software.Python.Dict
use gestalt_agentic_software.Python.Dict.{Dict, number_key}
use gestalt_agentic_software.Events.Memory.{MemoryEventBus}
use gestalt_agentic_software.Events.Memory
use gestalt_agentic_software.Events.Redis

module _ (now : ℕ) where
  found_weaker :
      (e : GestaltEvent) (o : Option EventApproval)
      → Memory.check_approval now e o ≡ ok tt
      → Redis.check_approval now e o ≡ ok tt
  unfolding Memory.check_approval Redis.check_approval
  found_weaker e none h = cc
  found_weaker e (some a) h = ground arith

  token_weaker :
      (bus : MemoryEventBus) (e : GestaltEvent) (t : Option Uuid)
      → Memory.check_token bus now e t ≡ ok tt
      → Redis.check_token bus.approvals now e t ≡ ok tt
  unfolding Memory.check_token Redis.check_token
  token_weaker bus e none h = cc
  token_weaker bus e (some id) h = found_weaker e (Dict.get bus.approvals id) h

  -- With the same approvals at the same time, an event that passes the memory bus passes the Redis
  -- bus.
  pub redis_accepts :
      (bus : MemoryEventBus) (e : GestaltEvent)
      → Memory.validate_event bus now e ≡ ok tt
      → Redis.validate_event bus.approvals now e ≡ ok tt
  redis_accepts bus e h = elim (Bool-cases (is_peer_signal e.event_type)) [
    | inl peer ↦
        (unfold Redis.validate_event in rw peer (token_weaker bus e e.approval_id (is_token peer)))
    | inr other ↦ (unfold Redis.validate_event in rw other)
  ]
    where
      is_token :
          is_peer_signal e.event_type ≡ true → Memory.check_token bus now e e.approval_id ≡ ok tt
      is_token peer = rw peer at opened
        where
          opened :
              (if is_peer_signal e.event_type
                then Memory.check_token bus now e e.approval_id
                else ok tt)
              ≡ ok tt
          opened = unfold Memory.validate_event in h

  found_same :
      (d e : GestaltEvent) (o : Option EventApproval)
      → d.event_type ≡ e.event_type
      → Redis.check_approval now d o ≡ Redis.check_approval now e o
  unfolding Redis.check_approval
  found_same d e none h = refl
  found_same d e (some a) h = rw h

  token_same :
      (approvals : Dict Uuid EventApproval) (d e : GestaltEvent) (t : Option Uuid)
      → d.event_type ≡ e.event_type
      → Redis.check_token approvals now d t ≡ Redis.check_token approvals now e t
  unfolding Redis.check_token
  token_same approvals d e none h = refl
  token_same approvals d e (some id) h = found_same d e (Dict.get approvals id) h

  -- The Redis bus gives two events with the same type and token the same verdict: it never compares
  -- the source and the target of an approval with those of the event.
  pub redis_ignores_parties :
      (approvals : Dict Uuid EventApproval) (d e : GestaltEvent)
      → d.event_type ≡ e.event_type
      → d.approval_id ≡ e.approval_id
      → Redis.validate_event approvals now d ≡ Redis.validate_event approvals now e
  unfolding Redis.validate_event
  redis_ignores_parties approvals d e type token =
      simp (type, token, token_same approvals d e e.approval_id type)

drop_suffix {ℓ} : {A : Type ℓ} (n : ℕ) (xs : List A) → take n xs ++ drop n xs ≡ xs
drop_suffix zero xs = refl
drop_suffix (suc n) [] = refl
drop_suffix (suc n) (x ∷ xs) = ap (λ (l : List _). x ∷ l) (drop_suffix n xs)

-- For a positive limit `list_events` gives the latest events in their order of publication: an end
-- of the list, as long as the limit or as the list, whichever is less.
pub list_events_latest :
    (bus : MemoryEventBus) (n : ℕ)
    → 0 < n
    → (earlier : List GestaltEvent) × (earlier ++ Memory.list_events bus (pos n) ≡ bus.events)
      × (length (Memory.list_events bus (pos n)) ≡ min n (length bus.events))
list_events_latest bus zero h = absurd (omega arith)
list_events_latest bus (suc n) h =
    unfold Memory.list_events in
    (
      take (length bus.events - suc n) bus.events,
      drop_suffix _ bus.events,
      omega (arith, length-drop {0} (length bus.events - suc n) bus.events),
    )

-- For a limit from 0 up, `list_events` keeps to its limit exactly when the limit is positive or
-- there are no events: a limit of 0 gives the whole list.
pub list_events_within_limit_iff :
    (bus : MemoryEventBus) (n : ℕ)
    → (length (Memory.list_events bus (pos n)) ≤ n) ↔ ((0 < n) ⊎ (length bus.events ≡ 0))
unfolding Memory.list_events
list_events_within_limit_iff bus zero = (λ h. inr (omega arith), λ h. omega arith)
list_events_within_limit_iff bus (suc n) = (
  λ h. inl (omega arith),
  λ h. omega (arith, length-drop {0} (length bus.events - suc n) bus.events),
)
