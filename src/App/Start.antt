-- ===== src/App/Start.antt =====
-- `build_runtime` and `shutdown_runtime` of gestalt/main.py: the blackboard and the bus that the program
-- runs with. The registration of the tools and the graph are in App/Cycle; the start of logging, of the
-- telemetry and of the scheduler is input and output.
use gestalt_agentic_software.Prelude.{String, [], if◌then◌else◌}
use gestalt_agentic_software.Protocol.Models.{Uuid}
use gestalt_agentic_software.Events.Interface.{EventBus, memory_bus}
use gestalt_agentic_software.Runtime.{World}
use gestalt_agentic_software.Events.Redis.{RedisServer}
use gestalt_agentic_software.Python.Exec.{Exec, on_part, Result, ok, raised, ◌>>◌}
use gestalt_agentic_software.Config.{GestaltSettings, BlackboardConfig}
use gestalt_agentic_software.Blackboard.{is_sqlite_url, GestaltBlackboard}
use gestalt_agentic_software.Blackboard.Lifecycle
use gestalt_agentic_software.Blackboard.Lifecycle.{DatabaseServer}
use gestalt_agentic_software.Events.Interface
use gestalt_agentic_software.Events.Memory

-- What follows the outcome of the bus's `initialize`: for a database in SQLite, a bus in memory instead of
-- one that fails. The close of that one is suppressed when it raises.
unfoldable pub or_in_memory : BlackboardConfig → Result (Unit {0}) × EventBus → Result EventBus
unfolding is_sqlite_url
or_in_memory config (ok _, started) = ok started
or_in_memory config (raised e, started) =
    if is_sqlite_url config.database_url then ok (memory_bus Memory.fresh) else raised e

-- The bus of the settings, once `initialize` has run.
unfoldable pub start_bus : BlackboardConfig → EventBus → Result EventBus
unfolding Interface.initialize or_in_memory
start_bus config bus = or_in_memory config (Interface.initialize bus)

abbrev pub world_with : GestaltBlackboard → Result EventBus → Result World
world_with board (ok bus) =
    ok (record { ticks = 0; uuids = 0; board = board; bus = bus; outside = [] })
world_with board (raised e) = raised e

module _ (settings : GestaltSettings) (server : RedisServer) (uuid_text : Uuid → String) where
  -- What follows the outcome of the blackboard's `initialize`.
  unfoldable pub after_board : Result (Unit {0}) × GestaltBlackboard → Result World
  unfolding start_bus Interface.build_event_bus
  after_board (ok _, board) =
      world_with board
        (start_bus settings.blackboard (Interface.build_event_bus settings.events server uuid_text))
  after_board (raised e, board) = raised e

  unfoldable pub start_board : DatabaseServer → Result GestaltBlackboard → Result World
  unfolding after_board Lifecycle.initialize
  start_board database (ok board) = after_board (Lifecycle.initialize database board)
  start_board database (raised e) = raised e

  -- The services that a run of the program begins with; `stored` is what the database and the graph hold.
  unfoldable pub build_runtime : DatabaseServer → GestaltBlackboard → Result World
  unfolding start_board Lifecycle.construct
  build_runtime database stored =
      start_board database (Lifecycle.construct database settings.blackboard stored)

unfoldable pub shutdown_runtime : Exec World (Unit {0})
unfolding Interface.close Lifecycle.close
shutdown_runtime =
    on_part (λ w. w.bus) (λ b w. record w { bus = b }) Interface.close
    >> on_part (λ w. w.board) (λ b w. record w { board = b }) Lifecycle.close
