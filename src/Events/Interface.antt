-- ===== src/Events/Interface.antt =====
-- `BaseEventBus` and `build_event_bus` of gestalt/events/bus.py: a bus is one of the two classes.
use gestalt_agentic_software.Protocol.Models.{Uuid, GestaltEvent}
use gestalt_agentic_software.Prelude.Int.{ℤ}
use gestalt_agentic_software.Prelude.{◌≡◌, ℕ, List, String, false, []}
use gestalt_agentic_software.Protocol.Reports.{EventApproval}
use gestalt_agentic_software.Python.Exec.{Exec, Result, ok}
use gestalt_agentic_software.Events.Memory
use gestalt_agentic_software.Events.Memory.{MemoryEventBus}
use gestalt_agentic_software.Events.Redis
use gestalt_agentic_software.Events.Redis.{RedisEventBus, RedisServer}
use gestalt_agentic_software.Config.{EventConfig, EventBackend}

pub data EventBus : Type 0 where
  memory_bus : MemoryEventBus → EventBus
  redis_bus : RedisEventBus → EventBus

abbrev wrap : {B A : Type 0} → (B → EventBus) → Result A × B → Result A × EventBus
wrap f (r, b) = (r, f b)

unfoldable pub approve : EventApproval → Exec EventBus EventApproval
unfolding Memory.approve Redis.approve
approve a (memory_bus b) = wrap memory_bus (Memory.approve a b)
approve a (redis_bus b) = wrap redis_bus (Redis.approve a b)

unfoldable pub publish : ℕ → GestaltEvent → Exec EventBus GestaltEvent
unfolding Memory.publish Redis.publish
publish now e (memory_bus b) = wrap memory_bus (Memory.publish now e b)
publish now e (redis_bus b) = wrap redis_bus (Redis.publish now e b)

unfoldable pub initialize : Exec EventBus (Unit {0})
unfolding Redis.initialize
initialize (memory_bus b) = (ok tt, memory_bus b)
initialize (redis_bus b) = wrap redis_bus (Redis.initialize b)

unfoldable pub close : Exec EventBus (Unit {0})
unfolding Memory.close Redis.close
close (memory_bus b) = wrap memory_bus (Memory.close b)
close (redis_bus b) = wrap redis_bus (Redis.close b)

unfoldable pub list_events : EventBus → ℤ → List GestaltEvent
unfolding Memory.list_events Redis.list_events
list_events (memory_bus b) limit = Memory.list_events b limit
list_events (redis_bus b) limit = Redis.list_events b limit

unfoldable pub build_event_bus : EventConfig → RedisServer → (Uuid → String) → EventBus
build_event_bus config server uuid_text = elim config.backend [
  | EventBackend.memory ↦ memory_bus Memory.fresh
  | EventBackend.redis ↦ redis_bus (record {
    config = config;
    server = server;
    uuid_text = uuid_text;
    connected = false;
    approvals = [];
    keys = [];
    stream = [];
  })
]

-- The bus is the one in memory.
pub record IsMemory (bus : EventBus) : Type 0 where
  pub held : MemoryEventBus
  pub eq : bus ≡ memory_bus held
