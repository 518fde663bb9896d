-- ===== src/Stats/Policy.antt =====
-- The methods of `GestaltStats` in gestalt/stats.py. A method that assigns to `self` is an action
-- on the object: the model does not validate assignments, so nothing is clamped by them.
use gestalt_agentic_software.Prelude.{
  ℕ, zero, suc, ◌+◌, ◌-◌, String, Bool, not, ◌&&◌, ◌||◌, Option, none, some, leb, ltb, ◌==◌,
  if◌then◌else◌,
}
use gestalt_agentic_software.Prelude.Int.{
  ℤ, pos, ◌+ℤ◌, ◌-ℤ◌, ◌*ℤ◌, leb_ℤ, ltb_ℤ, max_ℤ, min_ℤ, abs_ℤ,
}
use gestalt_agentic_software.Python.Exec.{
  Exec, Result, ok, pure, lift, modify, ◌>>=◌, ◌>>◌, raise_with, value_error, index_error,
}
use gestalt_agentic_software.Python.Dict
use gestalt_agentic_software.Python.Dict.{string_key}
use gestalt_agentic_software.Stats.Levels.{LoadLevel, PerformanceTier, AgentHealth, to_int, index}
use gestalt_agentic_software.Stats.Model.{StatsThresholds, GestaltStats}

-- max(0, min(100, value))
unfoldable pub clamp_score : ℤ → ℤ
clamp_score value = max_ℤ (pos 0) (min_ℤ (pos 100) value)

-- LoadLevel(n)
unfoldable pub load_level_of : ℕ → Result LoadLevel
load_level_of (suc zero) = ok LoadLevel.very_low
load_level_of (suc (suc zero)) = ok LoadLevel.low
load_level_of (suc (suc (suc zero))) = ok LoadLevel.moderate
load_level_of (suc (suc (suc (suc zero)))) = ok LoadLevel.high
load_level_of (suc (suc (suc (suc (suc zero))))) = ok LoadLevel.extreme
load_level_of _ = raise_with value_error "not a valid LoadLevel"

-- order[i]
unfoldable pub tier_at : ℕ → Result PerformanceTier
tier_at zero = ok PerformanceTier.low
tier_at (suc zero) = ok PerformanceTier.medium
tier_at (suc (suc zero)) = ok PerformanceTier.high
tier_at (suc (suc (suc zero))) = ok PerformanceTier.critical
tier_at _ = raise_with index_error "list index out of range"

abbrev set_load : LoadLevel → Exec GestaltStats LoadLevel
set_load level = do modify (λ s. record s { load_level = level }); pure level

abbrev set_tier : PerformanceTier → Exec GestaltStats PerformanceTier
set_tier tier = do modify (λ s. record s { performance_tier = tier }); pure tier

unfoldable pub promote_load : Exec GestaltStats LoadLevel
unfolding to_int load_level_of
promote_load s =
    let n = to_int s.load_level + 1 in
    (do level ← lift (load_level_of (if ltb 5 n then 5 else n)); set_load level) s

unfoldable pub demote_load : Exec GestaltStats LoadLevel
unfolding to_int load_level_of
demote_load s =
    let n = to_int s.load_level - 1 in
    (do level ← lift (load_level_of (if ltb n 1 then 1 else n)); set_load level) s

unfoldable pub promote_performance : Exec GestaltStats PerformanceTier
unfolding index tier_at
promote_performance s =
    let i = index s.performance_tier + 1 in
    (do tier ← lift (tier_at (if ltb 3 i then 3 else i)); set_tier tier) s

-- An index of 0 less one is below 0, where the natural subtraction gives the 0 of `max`.
unfoldable pub demote_performance : Exec GestaltStats PerformanceTier
unfolding index tier_at
demote_performance s = (do tier ← lift (tier_at (index s.performance_tier - 1)); set_tier tier) s

unfoldable pub adjust_cost_efficiency : ℤ → Exec GestaltStats ℤ
unfolding clamp_score
adjust_cost_efficiency delta s =
    let score = clamp_score (s.cost_efficiency_score +ℤ delta) in
    (ok score, record s { cost_efficiency_score = score })

unfoldable pub adjust_security_risk : ℤ → Exec GestaltStats ℤ
unfolding clamp_score
adjust_security_risk delta s =
    let score = clamp_score (s.security_risk_score +ℤ delta) in
    (ok score, record s { security_risk_score = score })

unfoldable pub adjust_cohesion : ℤ → Exec GestaltStats ℤ
unfolding clamp_score
adjust_cohesion delta s =
    let score = clamp_score (s.gestalt_cohesion_score +ℤ delta) in
    (ok score, record s { gestalt_cohesion_score = score })

unfoldable pub set_agent_health : String → AgentHealth → GestaltStats → GestaltStats
set_agent_health agent_name health s = record s {
  agent_health = Dict.put s.agent_health agent_name health;
}

-- The cascade of `_derive_load_level`, highest tier first.
unfoldable pub load_level_at : StatsThresholds → ℤ → LoadLevel
load_level_at t pressure =
    if leb_ℤ t.queue_critical pressure
    then LoadLevel.extreme
    else if leb_ℤ t.queue_high pressure
    then LoadLevel.high
    else if leb_ℤ t.queue_medium pressure
    then LoadLevel.moderate
    else if leb_ℤ t.queue_low pressure
    then LoadLevel.low
    else LoadLevel.very_low

unfoldable pub derive_load_level : ℤ → ℤ → StatsThresholds → LoadLevel
unfolding load_level_at
derive_load_level queue_depth active_cycles t =
    load_level_at t (max_ℤ queue_depth (active_cycles *ℤ pos 5))

-- The defaults of `StatsThresholds`; 0.05 and 0.15 are written as their bit patterns.
abbrev pub default_thresholds : StatsThresholds
default_thresholds = record {
  medium_latency_ms = pos 800;
  high_latency_ms = pos 2000;
  critical_latency_ms = pos 5000;
  degraded_error_rate = 0x3fa999999999999a;
  critical_error_rate = 0x3fc3333333333333;
  queue_low = pos 5;
  queue_medium = pos 20;
  queue_high = pos 50;
  queue_critical = pos 100;
  optimizer_trigger_delta = pos 10;
}

unfoldable pub preferred_model_route : GestaltStats → String
unfolding to_int index
preferred_model_route s =
    if index s.performance_tier == 3
    then "critical"
    else if index s.performance_tier == 2 || leb 4 (to_int s.load_level)
    then "high"
    else if index s.performance_tier == 1 || to_int s.load_level == 3
    then "medium"
    else "low"

pub record ModelPolicy : Type 0 where
  pub load_level : ℕ
  pub performance_tier : PerformanceTier
  pub downgrade_to_small_model : Bool
  pub require_heightened_guardrails : Bool
  pub preferred_route : String

unfoldable pub derive_model_policy : GestaltStats → ModelPolicy
unfolding preferred_model_route
derive_model_policy s = record {
  load_level = to_int s.load_level;
  performance_tier = s.performance_tier;
  downgrade_to_small_model =
      leb 4 (to_int s.load_level)
      && (ltb_ℤ s.cost_efficiency_score (pos 50) || index s.performance_tier == 3);
  require_heightened_guardrails = leb_ℤ (pos 60) s.security_risk_score;
  preferred_route = preferred_model_route s;
}

-- max(score_deltas)
abbrev pub largest_delta : GestaltStats → GestaltStats → ℤ
largest_delta s p =
    max_ℤ
      (max_ℤ (abs_ℤ (s.cost_efficiency_score -ℤ p.cost_efficiency_score))
        (abs_ℤ (s.security_risk_score -ℤ p.security_risk_score)))
      (abs_ℤ (s.gestalt_cohesion_score -ℤ p.gestalt_cohesion_score))

-- Without previous statistics the flag of `self` is left alone.
unfoldable pub should_trigger_optimizer :
    Option GestaltStats → ℤ → GestaltStats → Bool × GestaltStats
unfolding index to_int
should_trigger_optimizer none delta_threshold s =
    (index s.performance_tier == 2 || index s.performance_tier == 3, s)
should_trigger_optimizer (some p) delta_threshold s =
    let tier_changed = not (index s.performance_tier == index p.performance_tier) in
    let load_changed = not (to_int s.load_level == to_int p.load_level) in
    let triggered = tier_changed || load_changed || leb_ℤ delta_threshold (largest_delta s p) in
    (triggered, record s { optimizer_triggered = triggered })

unfoldable pub should_trigger_security_intervention : GestaltStats → Bool
should_trigger_security_intervention s =
    leb_ℤ (pos 70) s.security_risk_score || leb_ℤ (pos 5) s.open_security_findings
