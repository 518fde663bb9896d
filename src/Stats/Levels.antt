-- ===== src/Stats/Levels.antt =====
-- The enumerations of gestalt/stats.py. `LoadLevel` is an `IntEnum`: `to_int` is its value.
use gestalt_agentic_software.Prelude.{ℕ, String}

pub data LoadLevel : Type 0 where
  very_low low moderate high extreme : LoadLevel

pub data PerformanceTier : Type 0 where
  low medium high critical : PerformanceTier

pub data AgentHealth : Type 0 where
  healthy degraded critical : AgentHealth

pub LoadLevel-discrete : Discrete LoadLevel
LoadLevel-discrete = hlevel

pub PerformanceTier-discrete : Discrete PerformanceTier
PerformanceTier-discrete = hlevel

-- int(level)
unfoldable pub to_int : LoadLevel → ℕ
to_int LoadLevel.very_low = 1
to_int LoadLevel.low = 2
to_int LoadLevel.moderate = 3
to_int LoadLevel.high = 4
to_int LoadLevel.extreme = 5

-- order.index(tier), in the list that the methods write out
unfoldable pub index : PerformanceTier → ℕ
index PerformanceTier.low = 0
index PerformanceTier.medium = 1
index PerformanceTier.high = 2
index PerformanceTier.critical = 3

-- tier.value
unfoldable pub tier_text : PerformanceTier → String
tier_text PerformanceTier.low = "low"
tier_text PerformanceTier.medium = "medium"
tier_text PerformanceTier.high = "high"
tier_text PerformanceTier.critical = "critical"

-- health.value
unfoldable pub health_text : AgentHealth → String
health_text AgentHealth.healthy = "healthy"
health_text AgentHealth.degraded = "degraded"
health_text AgentHealth.critical = "critical"
