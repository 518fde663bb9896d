-- ===== src/Runtime.antt =====
-- The services that an agent reaches, and what they read of the outside: gestalt/utils/time.py,
-- gestalt/utils/ids.py and the container of gestalt/utils/runtime.py.
use gestalt_agentic_software.Prelude.Int.{ℤ}
use gestalt_agentic_software.Python.Floats.{FloatOps}
use gestalt_agentic_software.Protocol.Models.{Datetime, Uuid, Metadata}
use gestalt_agentic_software.Protocol.Reports.{EventApproval, GestaltStatsReport}
use gestalt_agentic_software.Python.Values.{Value, Float}
use gestalt_agentic_software.Python.Exec.{Exec, ok, Result}
use gestalt_agentic_software.Prelude.{List, String, ℕ, Option, Bool, true, ◌+◌}
use gestalt_agentic_software.Events.Interface.{EventBus}
use gestalt_agentic_software.Blackboard.{GestaltBlackboard}

-- What the language and the libraries give and the program does not implement: the clock's successive
-- readings in microseconds, floats, `==` on values of type `Any`, the texts that an f-string shows
-- (`fixed_text` for `:.1f` and `percent_text` for `:.2%`), the JSON value of a report, and the
-- language model's answer to its n-th call.
pub record Host : Type 0 where
  pub clock : ℕ → ℕ
  pub floats : FloatOps
  pub same_value : Value → Value → Bool
  pub uuid_text : Uuid → String
  pub value_text : Value → String
  pub int_text : ℤ → String
  pub fixed_text : Float → String
  pub percent_text : Float → String
  pub stats_report_value : GestaltStatsReport → Value
  pub acompletion : ℕ → String → String → String → Result (Option Metadata)

-- What reaches the outside: an HTTP request with its method and URL, or a shell command with its
-- working directory.
pub data OutsideCall : Type 0 where
  http_call : String → String → OutsideCall
  process : String → String → OutsideCall

-- `outside` lists the calls that were made, in their order. `ticks` counts the readings of the clock
-- and the calls of the model; `uuids` counts the UUIDs that were drawn, each of which is new.
pub record World : Type 0 where
  pub ticks : ℕ
  pub uuids : ℕ
  pub board : GestaltBlackboard
  pub bus : EventBus
  pub outside : List OutsideCall

-- What an agent's turn can change: the services, and of the graph state that it was given the list of
-- approvals, the one field that is written in place.
pub record Session : Type 0 where
  pub world : World
  pub approvals : List EventApproval

module _ (host : Host) where
  -- utc_now()
  unfoldable pub utc_now : Exec World Datetime
  utc_now w =
      (ok (record { instant = host.clock w.ticks; aware = true }), record w { ticks = w.ticks + 1 })

  unfoldable pub acompletion : String → String → String → Exec World (Option Metadata)
  acompletion model system user w =
      (host.acompletion w.ticks model system user, record w { ticks = w.ticks + 1 })

-- uuid4()
unfoldable pub new_uuid : Exec World Uuid
new_uuid w = (ok w.uuids, record w { uuids = w.uuids + 1 })

abbrev pub on_world : {A : Type 0} → Exec World A → Exec Session A
on_world m s = let (r, w) = m s.world in (r, record s { world = w })

abbrev pub on_board : {A : Type 0} → Exec GestaltBlackboard A → Exec Session A
on_board m s =
    let (r, b) = m s.world.board in (r, record s { world = record s.world { board = b } })

abbrev pub on_bus : {A : Type 0} → Exec EventBus A → Exec Session A
on_bus m s = let (r, b) = m s.world.bus in (r, record s { world = record s.world { bus = b } })
