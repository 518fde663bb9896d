-- ===== src/Examples/Events.antt =====
-- The theorems on the buses at concrete inputs.
use gestalt_agentic_software.Events.Permission.{IsPermitted, validate_event_iff}
use gestalt_agentic_software.Protocol.Enums.{GestaltEventType, same_event_type}
use gestalt_agentic_software.Prelude.Int.{pos}
use gestalt_agentic_software.Events.Listing.{
  redis_ignores_parties, redis_accepts, list_events_latest, list_events_within_limit_iff,
}
use gestalt_agentic_software.Python.Exec.{ok, Exc, raised, event_approval_error}
use gestalt_agentic_software.Protocol.Models.{GestaltEvent}
use gestalt_agentic_software.Events.History.{
  Ledger, IsBacked, events-IsBacked, Reach, Step, publish_cases,
}
use gestalt_agentic_software.Prelude.{
  All, List, length, ◌≡◌, [], some, ◌++◌, ◌∷◌, min, refl, ◌↔◌, ◌≤◌, ◌<◌, ◌⊎◌, arith,
}
use gestalt_agentic_software.Events.Memory.{MemoryEventBus}
use gestalt_agentic_software.Examples.Data.{approval, signal}
use gestalt_agentic_software.Events.Memory
use gestalt_agentic_software.Events.Redis
use gestalt_agentic_software.Python.Dict
use gestalt_agentic_software.Python.Dict.{number_key}

abbrev approved : MemoryEventBus
approved = record { approvals = (7, approval) ∷ []; events = [] }

validate_event_iff_example :
    (Memory.validate_event approved 100 signal ≡ ok tt) ↔ IsPermitted approved 100 signal
validate_event_iff_example = validate_event_iff 100 signal approved refl

-- At the instant 500 the approval is expired.
publish_cases_example :
    ((signal.event_type ≡ GestaltEventType.peer_signal → IsPermitted approved 500 signal)
      × (Memory.publish 500 signal approved
          ≡ (ok signal, record approved { events = approved.events ++ signal ∷ [] })))
    ⊎ ((signal.event_type ≡ GestaltEventType.peer_signal)
        × (¬ IsPermitted approved 500 signal)
        × (x : Exc) × (Memory.publish 500 signal approved ≡ (raised x, approved))
        × (x.kind ≡ event_approval_error))
publish_cases_example = publish_cases approved 500 signal

abbrev opened : Ledger
opened = record { bus = Memory.fresh; issued = [] }

abbrev issued : Ledger
issued = record { bus = (Memory.approve approval Memory.fresh).1; issued = approval ∷ [] }

abbrev published : Ledger
published = record issued { bus = (Memory.publish 100 signal issued.bus).1 }

events-IsBacked_example : All (IsBacked (approval ∷ [])) published.bus.events
events-IsBacked_example = events-IsBacked (
    Reach.next (Reach.next Reach.start (Step.approve opened approval))
      (Step.publish issued 100 signal))

redis_accepts_example : Redis.validate_event approved.approvals 100 signal ≡ ok tt
unfolding Memory.validate_event Dict.get same_event_type
redis_accepts_example = redis_accepts 100 approved signal refl

-- The same token on an event of another sender.
abbrev forged : GestaltEvent
forged = record signal { source_agent = "monitor"; target_agent = some "optimizer" }

redis_ignores_parties_example :
    Redis.validate_event approved.approvals 100 signal
    ≡ Redis.validate_event approved.approvals 100 forged
redis_ignores_parties_example = redis_ignores_parties 100 approved.approvals signal forged refl refl

abbrev full : MemoryEventBus
full = record approved { events = signal ∷ forged ∷ [] }

list_events_latest_example :
    (earlier : List GestaltEvent) × (earlier ++ Memory.list_events full (pos 1) ≡ full.events)
    × (length (Memory.list_events full (pos 1)) ≡ min 1 (length full.events))
list_events_latest_example = list_events_latest full 1 (omega arith)

list_events_within_limit_iff_example :
    (length (Memory.list_events full (pos 0)) ≤ 0) ↔ ((0 < 0) ⊎ (length full.events ≡ 0))
list_events_within_limit_iff_example = list_events_within_limit_iff full 0
