-- ===== src/Stats/Model.antt =====
-- The models of gestalt/stats.py, with all their fields. A float is its bit pattern.
use gestalt_agentic_software.Prelude.{ℕ, String, Bool}
use gestalt_agentic_software.Prelude.Int.{ℤ}
use gestalt_agentic_software.Python.Dict.{Dict}
use gestalt_agentic_software.Python.Values.{Float}
use gestalt_agentic_software.Stats.Levels.{LoadLevel, PerformanceTier, AgentHealth}

pub record StatsThresholds : Type 0 where
  pub medium_latency_ms : ℤ
  pub high_latency_ms : ℤ
  pub critical_latency_ms : ℤ
  pub degraded_error_rate : Float
  pub critical_error_rate : Float
  pub queue_low : ℤ
  pub queue_medium : ℤ
  pub queue_high : ℤ
  pub queue_critical : ℤ
  pub optimizer_trigger_delta : ℤ

pub record MonitorSnapshot : Type 0 where
  pub queue_depth : ℤ
  pub active_cycles : ℤ
  pub avg_latency_ms : Float
  pub p95_latency_ms : Float
  pub error_rate : Float
  pub failure_count : ℤ
  pub success_count : ℤ
  pub cost_per_cycle : Float
  pub blackboard_consistency : Float
  pub collaboration_success_rate : Float
  pub security_open_findings : ℤ

-- `last_updated` is in microseconds.
pub record GestaltStats : Type 0 where
  pub load_level : LoadLevel
  pub performance_tier : PerformanceTier
  pub cost_efficiency_score : ℤ
  pub security_risk_score : ℤ
  pub gestalt_cohesion_score : ℤ
  pub agent_health : Dict String AgentHealth
  pub queue_depth : ℤ
  pub active_cycles : ℤ
  pub average_latency_ms : Float
  pub p95_latency_ms : Float
  pub error_rate : Float
  pub failure_count : ℤ
  pub success_count : ℤ
  pub cost_per_cycle : Float
  pub blackboard_consistency : Float
  pub collaboration_success_rate : Float
  pub open_security_findings : ℤ
  pub optimizer_triggered : Bool
  pub last_updated : ℕ
