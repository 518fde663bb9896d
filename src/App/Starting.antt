-- ===== src/App/Starting.antt =====
-- What the program of gestalt/main.py runs with when it starts, and what keeps it from starting.
use mathlib.Core.Path.{subst}
use gestalt_agentic_software.App.Start.{
  or_in_memory, start_bus, world_with, after_board, build_runtime, start_board,
}
use gestalt_agentic_software.Events.Interface.{EventBus, memory_bus, redis_bus}
use gestalt_agentic_software.Python.Exec.{ok, Result, raised, Exc, continue, modify}
use gestalt_agentic_software.Runtime.{World}
use gestalt_agentic_software.Blackboard.{GestaltBlackboard, is_sqlite_url}
use gestalt_agentic_software.Blackboard.Lifecycle.{DatabaseServer, disconnected}
use gestalt_agentic_software.Prelude.{
  String, ◌≡◌, true, false, ◌⊎◌, Bool-cases, inl, Bool, refl, if◌then◌else◌, inr, sym, arith,
}
use gestalt_agentic_software.Protocol.Models.{Uuid}
use gestalt_agentic_software.Events.Redis.{RedisServer, RedisEventBus}
use gestalt_agentic_software.Config.{GestaltSettings, EventBackend}
use gestalt_agentic_software.Blackboard.Lifecycle
use gestalt_agentic_software.Events.Memory
use gestalt_agentic_software.Events.Redis
use gestalt_agentic_software.Events.Interface

module _ (settings : GestaltSettings) (server : RedisServer) (uuid_text : Uuid → String)
    (database : DatabaseServer) (stored : GestaltBlackboard) where
  abbrev pub url : String
  url = settings.blackboard.database_url

  -- The bus of the settings, of which a Redis server has answered; or, where it has not and the database is
  -- in SQLite, a bus in memory.
  abbrev pub IsUsable : EventBus → Type 0
  IsUsable (memory_bus b) =
      (b ≡ Memory.fresh)
      × ((settings.events.backend ≡ EventBackend.memory)
          ⊎ ((e : Exc) × (server.ping ≡ raised e) × (is_sqlite_url url ≡ true)))
  IsUsable (redis_bus b) =
      (settings.events.backend ≡ EventBackend.redis)
      × (b.server ≡ server)
      × (b.connected ≡ true)
      × (server.ping ≡ ok tt)

  -- The world that the program begins with. Its tables are those that are stored, and a database in SQLite
  -- has no graph beside it.
  pub record IsReady (w : World) : Type 0 where
    pub engine : database.create_engine url ≡ ok tt
    pub schema : database.create_all url ≡ ok tt
    pub tables :
        w.board
        ≡ record stored { config = settings.blackboard; graph_connected = w.board.graph_connected }
    pub no_graph : is_sqlite_url url ≡ true → w.board.graph_connected ≡ false
    pub bus : IsUsable w.bus

  -- The source of an exception: the database, or a Redis server that does not answer, the latter only
  -- where the settings ask for it beside a database that is not SQLite.
  abbrev pub IsCause : Exc → Type 0
  IsCause e =
      (database.create_engine url ≡ raised e)
      ⊎ ((database.create_all url ≡ raised e)
          ⊎ ((settings.events.backend ≡ EventBackend.redis)
              × (server.ping ≡ raised e)
              × (is_sqlite_url url ≡ false)))

  abbrev pub IsOutcome : Result World → Type 0
  IsOutcome (ok w) = IsReady w
  IsOutcome (raised e) = IsCause e

  abbrev IsRefusal : Exc → Type 0
  IsRefusal e =
      (settings.events.backend ≡ EventBackend.redis)
      × (server.ping ≡ raised e)
      × (is_sqlite_url url ≡ false)

  abbrev IsBus : Result EventBus → Type 0
  IsBus (ok b) = IsUsable b
  IsBus (raised e) = IsRefusal e

  redis_outcome :
      (r : Result (Unit {0}))
      → server.ping ≡ r
      → settings.events.backend ≡ EventBackend.redis
      → (b : RedisEventBus) → b.connected ≡ true
      → b.server ≡ server
      → IsBus (or_in_memory settings.blackboard (r, redis_bus b))
  unfolding or_in_memory
  redis_outcome (ok _) ping asked b connected answer = (asked, answer, connected, ping)
  redis_outcome (raised e) ping asked b connected answer = elim (Bool-cases (is_sqlite_url url)) [
    | inl sqlite ↦
        subst (λ (x : Bool). IsBus (if x then ok (memory_bus Memory.fresh) else raised e))
          (sym sqlite) (refl, inr (e, ping, sqlite))
    | inr other ↦
        subst (λ (x : Bool). IsBus (if x then ok (memory_bus Memory.fresh) else raised e))
          (sym other) (asked, ping, other)
  ]

  start_bus-IsBus :
      (backend : EventBackend)
      → settings.events.backend ≡ backend
      → IsBus (
          start_bus settings.blackboard (
            Interface.build_event_bus
              (record settings.events { backend = backend })
              server
              uuid_text))
  unfolding start_bus Interface.build_event_bus Interface.initialize Redis.initialize or_in_memory
  start_bus-IsBus EventBackend.memory asked = (refl, inl asked)
  start_bus-IsBus EventBackend.redis asked = redis_outcome server.ping refl asked _ refl refl

  with_bus :
      (b : GestaltBlackboard)
      → database.create_engine url ≡ ok tt
      → database.create_all url ≡ ok tt
      → b ≡ record stored { config = settings.blackboard; graph_connected = b.graph_connected }
      → (is_sqlite_url url ≡ true → b.graph_connected ≡ false)
      → (bus : Result EventBus) → IsBus bus
      → IsOutcome (world_with b bus)
  with_bus b engine schema tables no_graph (ok bus) fine = record {
    engine = engine;
    schema = schema;
    tables = tables;
    no_graph = no_graph;
    bus = fine;
  }
  with_bus b engine schema tables no_graph (raised e) cause = inr (inr cause)

  abbrev IsGraphOf : GestaltBlackboard → GestaltBlackboard → Type 0
  IsGraphOf b b' =
      (b' ≡ record b { graph_connected = b'.graph_connected })
      × (is_sqlite_url b.config.database_url ≡ true → b'.graph_connected ≡ b.graph_connected)

  with_driver :
      (b : GestaltBlackboard) (r : Result (Unit {0}))
      → is_sqlite_url b.config.database_url ≡ false
      → IsGraphOf b (elim r [ ok _ ↦ record b { graph_connected = true } | raised e ↦ b ])
  with_driver b (ok _) other = (refl, λ sqlite. absurd (ground (arith, sqlite, other)))
  with_driver b (raised e) other = (refl, λ sqlite. refl)

  initialize_graph-IsGraphOf :
      (b : GestaltBlackboard) → IsGraphOf b (Lifecycle.initialize_graph database b)
  unfolding Lifecycle.initialize_graph
  initialize_graph-IsGraphOf b = elim (Bool-cases (is_sqlite_url b.config.database_url)) [
    | inl sqlite ↦
        subst
          (λ (x : Bool). IsGraphOf b (
            if x then b else elim (database.driver b.config) [
              | ok _ ↦ record b { graph_connected = true }
              | raised e ↦ b
            ]))
          (sym sqlite) (refl, λ _. refl)
    | inr other ↦
        subst
          (λ (x : Bool). IsGraphOf b (
            if x then b else elim (database.driver b.config) [
              | ok _ ↦ record b { graph_connected = true }
              | raised e ↦ b
            ]))
          (sym other) (with_driver b (database.driver b.config) other)
  ]

  abbrev of_schema : GestaltBlackboard → Result (Unit {0}) → Result World
  of_schema b r =
      after_board settings server uuid_text
        (continue r (λ _. modify (Lifecycle.initialize_graph database)) b)

  of_schema-IsOutcome :
      (r : Result (Unit {0}))
      → database.create_engine url ≡ ok tt
      → database.create_all url ≡ r
      → IsOutcome (of_schema (disconnected settings.blackboard stored) r)
  unfolding after_board
  of_schema-IsOutcome (ok _) engine schema =
      let b = disconnected settings.blackboard stored in
      let graph = initialize_graph-IsGraphOf b in
      with_bus (Lifecycle.initialize_graph database b) engine schema graph.0 graph.1 _
        (start_bus-IsBus settings.events.backend refl)
  of_schema-IsOutcome (raised e) engine schema = inr (inl schema)

  of_engine-IsOutcome :
      (r : Result (Unit {0}))
      → database.create_engine url ≡ r
      → IsOutcome (
          start_board settings server uuid_text database
            (elim r [ ok _ ↦ ok (disconnected settings.blackboard stored) | raised e ↦ raised e ]))
  unfolding start_board Lifecycle.initialize
  of_engine-IsOutcome (ok _) engine = of_schema-IsOutcome (database.create_all url) engine refl
  of_engine-IsOutcome (raised e) engine = inl engine

  -- The program starts with the tables that are stored and with a bus that can be used: one in memory, if
  -- the settings ask for it or if the database is in SQLite and the Redis server does not answer, or one of
  -- a Redis server that answers. Beside a database in SQLite the board has no graph. Otherwise it raises
  -- what the database raises when it is opened or when its schema is made, or, where the settings ask for
  -- Redis beside a database that is not SQLite, what the ping of the server raises.
  pub build_runtime-IsOutcome : IsOutcome (build_runtime settings server uuid_text database stored)
  unfolding build_runtime Lifecycle.construct
  build_runtime-IsOutcome = of_engine-IsOutcome (database.create_engine url) refl
