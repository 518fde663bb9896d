-- ===== src/Blackboard/Lifecycle.antt =====
-- The construction of `GestaltBlackboard` of gestalt/blackboard.py, its `initialize` and its `close`, with
-- those of the Neo4j store. What SQLAlchemy and the driver of Neo4j do on a connection is a parameter.
use gestalt_agentic_software.Python.Exec.{Exec, Result, modify, ◌>>=◌, gets, ◌>>◌, lift}
use gestalt_agentic_software.Config.{BlackboardConfig}
use gestalt_agentic_software.Prelude.{String, false, true}
use gestalt_agentic_software.Blackboard.{
  GestaltBlackboard, is_sqlite_url, if◌then◌else◌, ok, raised,
}

-- `create_engine` and `create_all` take the URL of the database; each may raise.
pub record DatabaseServer : Type 0 where
  pub create_engine : String → Result (Unit {0})
  pub create_all : String → Result (Unit {0})
  pub driver : BlackboardConfig → Result (Unit {0})

abbrev pub disconnected : BlackboardConfig → GestaltBlackboard → GestaltBlackboard
disconnected config stored = record stored { config = config; graph_connected = false }

-- GestaltBlackboard(config), over what the database and the graph hold already.
unfoldable pub construct :
    DatabaseServer → BlackboardConfig → GestaltBlackboard → Result GestaltBlackboard
construct database config stored = elim (database.create_engine config.database_url) [
  | ok _ ↦ ok (disconnected config stored)
  | raised e ↦ raised e
]

-- The store has a driver, or stays without one: in SQLite it makes none, and an exception is logged only.
unfoldable pub initialize_graph : DatabaseServer → GestaltBlackboard → GestaltBlackboard
unfolding is_sqlite_url
initialize_graph database b =
    if is_sqlite_url b.config.database_url then b else elim (database.driver b.config) [
      | ok _ ↦ record b { graph_connected = true }
      | raised e ↦ b
    ]

unfoldable pub initialize : DatabaseServer → Exec GestaltBlackboard (Unit {0})
unfolding initialize_graph
initialize database = do
  b ← gets (λ b. b)
  lift (database.create_all b.config.database_url)
  modify (initialize_graph database)

-- The disposal of the engine's connections changes no row.
unfoldable pub close : Exec GestaltBlackboard (Unit {0})
close = modify (λ b. record b { graph_connected = false })
