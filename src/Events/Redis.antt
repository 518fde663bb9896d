-- ===== src/Events/Redis.antt =====
-- `RedisEventBus` of gestalt/events/bus.py. The Redis server is a parameter: what its commands do to
-- the stream and to the keys, and whether they fail. An event in the stream stands for its JSON.
use gestalt_agentic_software.Prelude.Int.{ℤ}
use gestalt_agentic_software.Protocol.Reports.{EventApproval}
use gestalt_agentic_software.Protocol.Enums.{is_peer_signal, same_event_type}
use gestalt_agentic_software.Protocol.Models.{Uuid, GestaltEvent}
use gestalt_agentic_software.Prelude.{
  String, ℕ, Bool, List, ◌+++◌, Option, false, if◌then◌else◌, [], reverse, some, leb, none, not,
  true,
}
use gestalt_agentic_software.Config.{EventConfig}
use gestalt_agentic_software.Python.Exec.{
  Exec, Result, ok, raise_with, event_approval_error, ◌>>=◌, ◌>>◌, gets, modify, lift, pure, raise,
  runtime_error,
}
use gestalt_agentic_software.Python.Dict
use gestalt_agentic_software.Python.Dict.{Dict, number_key, string_key}

-- `set` and `xadd` may raise; `xrevrange` gives the newest entries, the newest first.
pub record RedisServer : Type 0 where
  pub ping : Result (Unit {0})
  pub set :
      Dict String EventApproval → String → EventApproval → ℕ → Result (Dict String EventApproval)
  pub xadd : List GestaltEvent → GestaltEvent → ℕ → Result (List GestaltEvent)
  pub xrevrange : List GestaltEvent → ℤ → List GestaltEvent

-- `connected` says that `_redis` is not `None`; `keys` and `stream` are what the server holds.
pub record RedisEventBus : Type 0 where
  pub config : EventConfig
  pub server : RedisServer
  pub uuid_text : Uuid → String
  pub connected : Bool
  pub approvals : Dict Uuid EventApproval
  pub keys : Dict String EventApproval
  pub stream : List GestaltEvent

abbrev reject {ℓ} : {A : Type ℓ} → String → Result A
reject message = raise_with event_approval_error message

unfoldable pub check_approval : ℕ → GestaltEvent → Option EventApproval → Result (Unit {0})
check_approval now event none = reject "Approval token is unknown."
check_approval now event (some approval) =
    if leb approval.expires_at.instant now
    then reject "Approval token is expired."
    else if not (same_event_type approval.permitted_event event.event_type)
    then reject "Approval token does not permit this event type."
    else ok tt

unfoldable pub check_token :
    Dict Uuid EventApproval → ℕ → GestaltEvent → Option Uuid → Result (Unit {0})
unfolding check_approval
check_token approvals now event none = reject "Peer signals require an approval id."
check_token approvals now event (some id) = check_approval now event (Dict.get approvals id)

unfoldable pub validate_event : Dict Uuid EventApproval → ℕ → GestaltEvent → Result (Unit {0})
unfolding check_token is_peer_signal
validate_event approvals now event =
    if is_peer_signal event.event_type
    then check_token approvals now event event.approval_id
    else ok tt

-- The client is assigned before the ping, so it stays when the ping raises.
unfoldable pub initialize : Exec RedisEventBus (Unit {0})
initialize = do
  modify (λ b. record b { connected = true })
  bus ← gets (λ b. b)
  lift bus.server.ping

unfoldable pub close : Exec RedisEventBus (Unit {0})
close bus = (ok tt, record bus { connected = false; approvals = [] })

abbrev approval_key : RedisEventBus → EventApproval → String
approval_key bus approval =
    bus.config.stream_name +++ ":approval:" +++ bus.uuid_text approval.approval_id

abbrev set_key : EventApproval → Exec RedisEventBus (Unit {0})
set_key approval = do
  bus ← gets (λ b. b)
  keys ←
      lift (
        bus.server.set bus.keys (approval_key bus approval) approval
          bus.config.approval_ttl_seconds)
  modify (λ b. record b { keys = keys })

unfoldable pub approve : EventApproval → Exec RedisEventBus EventApproval
approve approval = do
  modify (λ b. record b { approvals = Dict.put b.approvals approval.approval_id approval })
  bus ← gets (λ b. b)
  if bus.connected then set_key approval else pure tt
  pure approval

unfoldable pub publish : ℕ → GestaltEvent → Exec RedisEventBus GestaltEvent
unfolding validate_event
publish now event = do
  bus ← gets (λ b. b)
  lift (validate_event bus.approvals now event)
  if bus.connected then pure tt else raise runtime_error "Redis event bus is not initialized."
  stream ← lift (bus.server.xadd bus.stream event bus.config.max_stream_length)
  modify (λ b. record b { stream = stream })
  pure event

unfoldable pub list_events : RedisEventBus → ℤ → List GestaltEvent
list_events bus limit =
    if bus.connected then reverse (bus.server.xrevrange bus.stream limit) else []
