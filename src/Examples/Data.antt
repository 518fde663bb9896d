-- ===== src/Examples/Data.antt =====
-- Concrete services, settings and messages.
use gestalt_agentic_software.Python.Exec.{ok}
use gestalt_agentic_software.Protocol.Enums.{GestaltEventType, SchedulerSource, MemoryKind}
use gestalt_agentic_software.Stats.Levels.{LoadLevel, PerformanceTier}
use gestalt_agentic_software.Events.Interface.{memory_bus}
use gestalt_agentic_software.Python.Values.{Float, null}
use gestalt_agentic_software.Runtime.{Host, World}
use gestalt_agentic_software.Blackboard.{GestaltBlackboard}
use gestalt_agentic_software.Config.{
  BlackboardConfig, GestaltSettings, AgentPolicyConfig, EventBackend, LogLevel, ModelPreference,
}
use gestalt_agentic_software.Protocol.Models.{GestaltEvent, Uuid, Datetime, BlackboardMemoryRecord}
use gestalt_agentic_software.Protocol.Reports.{EventApproval, GestaltGraphState}
use gestalt_agentic_software.Prelude.{
  List, ℕ, String, some, true, ◌*◌, ◌∷◌, [], false, ◌/◌, leb, none,
}
use gestalt_agentic_software.Stats.Model.{GestaltStats, MonitorSnapshot}
use gestalt_agentic_software.Python.Floats.{FloatOps}
use gestalt_agentic_software.Prelude.Int.{ℤ, pos, negsuc, leb_ℤ}

-- A stand-in for the floats, for tests only: the whole numbers.
abbrev whole : ℤ → Float
whole (pos n) = n
whole (negsuc n) = 0

abbrev pub floats : FloatOps
floats = record {
  of_int = whole;
  mul = ◌*◌;
  div = ◌/◌;
  le = leb;
  int_le = λ z x. leb_ℤ z (pos x);
  to_int = λ x. some (pos x);
}

abbrev pub snapshot : MonitorSnapshot
snapshot = record {
  queue_depth = pos 12;
  active_cycles = pos 3;
  avg_latency_ms = 900;
  p95_latency_ms = 2400;
  error_rate = 1;
  failure_count = pos 2;
  success_count = pos 40;
  cost_per_cycle = 2;
  blackboard_consistency = 1;
  collaboration_success_rate = 1;
  security_open_findings = pos 1;
}

abbrev pub stats : GestaltStats
stats = record {
  load_level = LoadLevel.low;
  performance_tier = PerformanceTier.medium;
  cost_efficiency_score = pos 90;
  security_risk_score = pos 10;
  gestalt_cohesion_score = pos 95;
  agent_health = [];
  queue_depth = pos 4;
  active_cycles = pos 1;
  average_latency_ms = 120;
  p95_latency_ms = 300;
  error_rate = 0;
  failure_count = pos 0;
  success_count = pos 9;
  cost_per_cycle = 1;
  blackboard_consistency = 1;
  collaboration_success_rate = 1;
  open_security_findings = pos 0;
  optimizer_triggered = false;
  last_updated = 1000;
}

abbrev pub at : ℕ → Datetime
at n = record { instant = n; aware = true }

abbrev pub approval : EventApproval
approval = record {
  approval_id = 7;
  trace_id = 1;
  source_agent = "orchestrator";
  target_agent = "monitor";
  permitted_event = GestaltEventType.peer_signal;
  rationale = "scoped coordination";
  expires_at = at 500;
}

abbrev pub signal : GestaltEvent
signal = record {
  event_id = 20;
  trace_id = 1;
  approval_id = some 7;
  event_type = GestaltEventType.peer_signal;
  source_agent = "orchestrator";
  target_agent = some "monitor";
  payload = [];
  created_at = at 100;
}

abbrev memory : Uuid → String → String → ℕ → BlackboardMemoryRecord
memory id title content created = record {
  record_id = id;
  trace_id = 1;
  memory_kind = MemoryKind.fact;
  title = title;
  content = content;
  tags = [];
  embedding = none;
  metadata = [];
  created_at = at created;
}

abbrev pub blackboard_config : BlackboardConfig
blackboard_config = record {
  database_url = "sqlite+aiosqlite:///gestalt.db";
  neo4j_uri = "";
  neo4j_username = "";
  neo4j_password = "";
  vector_dimensions = 8;
  semantic_top_k = 2;
  memory_namespace = "gestalt";
  use_sqlite_fallback_for_tests = true;
}

abbrev pub board : GestaltBlackboard
board = record {
  config = blackboard_config;
  memories =
      memory 1 "Queue depth" "the queue grew" 10
      ∷ memory 2 "Deploy" "rolled back" 20
      ∷ memory 3 "Queue" "drained" 30
      ∷ [];
  stats_reports = [];
  audit_reports = [];
  commands = [];
  proposals = [];
  overlays = [];
  graph_connected = false;
  graph_relations = [];
}

abbrev policy : List String → AgentPolicyConfig
policy tools = record {
  enabled = true;
  model_preference = ModelPreference.low;
  max_retries = 1;
  tool_allowlist = tools;
}

abbrev pub settings : GestaltSettings
settings = record {
  config_path = "config.yaml";
  app = record {
    name = "gestalt";
    environment = "test";
    api_host = "127.0.0.1";
    api_port = 8000;
    admin_token_env = "TOKEN";
    admin_token = "secret";
  };
  models = record {
    enable_mock_llm = true;
    default_alias = "mock://low";
    routes = record {
      low = "mock://low";
      medium = "mock://medium";
      high = "mock://high";
      critical = "mock://critical";
    };
    embedding_alias = "mock://embedding";
    temperature = 0;
    max_tokens = 256;
  };
  blackboard = blackboard_config;
  events = record {
    backend = EventBackend.memory;
    redis_url = "redis://localhost";
    stream_name = "gestalt";
    consumer_group = "gestalt";
    approval_ttl_seconds = 300;
    max_stream_length = 1000;
  };
  scheduler = record {
    timezone = "UTC";
    monitor_interval_minutes = 5;
    security_audit_interval_hours = 6;
    knowledge_maintenance_minutes = 60;
    optimizer_interval_minutes = 30;
  };
  stats = record {
    latency_thresholds_ms = record { medium = 800; high = 2000; critical = 5000 };
    error_rate_thresholds = record { degraded = 0; critical = 1 };
    queue_depth_thresholds = record { low = 5; medium = 20; high = 50; critical = 100 };
    cohesion_penalties = record { audit_finding = 5; failed_command = 4; blackboard_conflict = 6 };
    optimizer_trigger_delta = 10;
  };
  audit = record {
    enabled = true;
    cadence_hours = 6;
    max_open_findings_before_escalation = 3;
    hallucination_score_threshold = 60;
    jailbreak_score_threshold = 60;
    enforce_event_approval = true;
    require_trace_ids = true;
  };
  telemetry = record {
    enabled = false;
    service_name_env = "SERVICE";
    exporter_endpoint_env = "ENDPOINT";
    resource_attributes = [];
    log_level = LogLevel.info;
    service_name = "gestalt";
    exporter_endpoint = none;
  };
  security = record {
    sandbox_enabled = true;
    sandbox_timeout_seconds = 10;
    outbound_http_allowlist = [];
    kubernetes_allowed_namespaces = [];
  };
  agents = ("orchestrator", policy ("query_blackboard" ∷ [])) ∷ ("monitor", policy []) ∷ [];
}

abbrev pub host : Host
host = record {
  clock = λ n. n * 1000;
  floats = floats;
  same_value = λ v w. false;
  uuid_text = λ n. "uuid";
  value_text = λ v. "value";
  int_text = λ z. "7";
  fixed_text = λ x. "0.1";
  percent_text = λ x. "1.00%";
  stats_report_value = λ r. null;
  acompletion = λ n model system user. ok none;
}

abbrev pub world : World
world = record {
  ticks = 0;
  uuids = 100;
  board = board;
  bus = memory_bus (record { approvals = []; events = [] });
  outside = [];
}

abbrev pub state : GestaltGraphState
state = record {
  trace_id = 1;
  cycle_id = 2;
  source = SchedulerSource.api;
  objective = "Investigate the queue latency";
  stats = stats;
  decisions = [];
  messages = [];
  commands = [];
  command_results = [];
  memories = [];
  optimization_proposals = [];
  audit_reports = [];
  execution_reports = [];
  latest_summary = none;
  approvals = [];
  metadata = [];
}
