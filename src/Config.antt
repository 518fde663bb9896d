-- ===== src/Config.antt =====
-- The settings models of gestalt/config.py, with all their fields; a secret is its text.
pub mod Environment
pub mod Load
pub mod Loading
use gestalt_agentic_software.Prelude.{ℕ, String, Bool, Option, List}
use gestalt_agentic_software.Python.Dict.{Dict}
use gestalt_agentic_software.Python.Values.{Float}

pub record AppConfig : Type 0 where
  pub name : String
  pub environment : String
  pub api_host : String
  pub api_port : ℕ
  pub admin_token_env : String
  pub admin_token : String

pub record ModelRouteConfig : Type 0 where
  pub low : String
  pub medium : String
  pub high : String
  pub critical : String

pub record ModelsConfig : Type 0 where
  pub enable_mock_llm : Bool
  pub default_alias : String
  pub routes : ModelRouteConfig
  pub embedding_alias : String
  pub temperature : Float
  pub max_tokens : ℕ

pub record BlackboardConfig : Type 0 where
  pub database_url : String
  pub neo4j_uri : String
  pub neo4j_username : String
  pub neo4j_password : String
  pub vector_dimensions : ℕ
  pub semantic_top_k : ℕ
  pub memory_namespace : String
  pub use_sqlite_fallback_for_tests : Bool

pub data EventBackend : Type 0 where
  redis memory : EventBackend

pub record EventConfig : Type 0 where
  pub backend : EventBackend
  pub redis_url : String
  pub stream_name : String
  pub consumer_group : String
  pub approval_ttl_seconds : ℕ
  pub max_stream_length : ℕ

pub record SchedulerConfig : Type 0 where
  pub timezone : String
  pub monitor_interval_minutes : ℕ
  pub security_audit_interval_hours : ℕ
  pub knowledge_maintenance_minutes : ℕ
  pub optimizer_interval_minutes : ℕ

pub record LatencyThresholds : Type 0 where
  pub medium : ℕ
  pub high : ℕ
  pub critical : ℕ

pub record ErrorRateThresholds : Type 0 where
  pub degraded : Float
  pub critical : Float

pub record QueueDepthThresholds : Type 0 where
  pub low : ℕ
  pub medium : ℕ
  pub high : ℕ
  pub critical : ℕ

pub record CohesionPenalties : Type 0 where
  pub audit_finding : ℕ
  pub failed_command : ℕ
  pub blackboard_conflict : ℕ

pub record StatsConfig : Type 0 where
  pub latency_thresholds_ms : LatencyThresholds
  pub error_rate_thresholds : ErrorRateThresholds
  pub queue_depth_thresholds : QueueDepthThresholds
  pub cohesion_penalties : CohesionPenalties
  pub optimizer_trigger_delta : ℕ

pub record AuditConfig : Type 0 where
  pub enabled : Bool
  pub cadence_hours : ℕ
  pub max_open_findings_before_escalation : ℕ
  pub hallucination_score_threshold : ℕ
  pub jailbreak_score_threshold : ℕ
  pub enforce_event_approval : Bool
  pub require_trace_ids : Bool

pub data LogLevel : Type 0 where
  debug info warning error : LogLevel

pub record TelemetryConfig : Type 0 where
  pub enabled : Bool
  pub service_name_env : String
  pub exporter_endpoint_env : String
  pub resource_attributes : Dict String String
  pub log_level : LogLevel
  pub service_name : String
  pub exporter_endpoint : Option String

pub record SecurityConfig : Type 0 where
  pub sandbox_enabled : Bool
  pub sandbox_timeout_seconds : ℕ
  pub outbound_http_allowlist : List String
  pub kubernetes_allowed_namespaces : List String

pub data ModelPreference : Type 0 where
  low medium high critical : ModelPreference

pub record AgentPolicyConfig : Type 0 where
  pub enabled : Bool
  pub model_preference : ModelPreference
  pub max_retries : ℕ
  pub tool_allowlist : List String

pub record GestaltSettings : Type 0 where
  pub config_path : String
  pub app : AppConfig
  pub models : ModelsConfig
  pub blackboard : BlackboardConfig
  pub events : EventConfig
  pub scheduler : SchedulerConfig
  pub stats : StatsConfig
  pub audit : AuditConfig
  pub telemetry : TelemetryConfig
  pub security : SecurityConfig
  pub agents : Dict String AgentPolicyConfig
