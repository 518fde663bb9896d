-- ===== src/Stats/Optimizer.antt =====
-- When the optimizer is triggered, and which model route the statistics ask for.
use gestalt_agentic_software.Prelude.{
  String, ℕ, ◌≤◌, arith, if◌then◌else◌, some, ◌≡◌, ◌≢◌, str_eq, ◌⊎◌, true, ◌↔◌, Bool, leb, false,
  max, ◌==◌, refl,
}
use gestalt_agentic_software.Stats.Policy.{
  derive_model_policy, should_trigger_optimizer, preferred_model_route,
}
use gestalt_agentic_software.Stats.Levels.{index, to_int, LoadLevel, PerformanceTier}
use gestalt_agentic_software.Stats.Model.{GestaltStats}
use gestalt_agentic_software.Prelude.Int.{ℤ, pos_part, abs_ℤ, pos, ◌-ℤ◌}

-- The distance between a score before and after.
abbrev pub moved : ℤ → ℤ → ℕ
moved now before = pos_part (abs_ℤ (now -ℤ before))

-- What the code means by a material change: another tier, another load level, or a score that moved
-- by the threshold.
abbrev pub IsMaterial : GestaltStats → ℕ → GestaltStats → Type 0
IsMaterial p d s =
    (s.performance_tier ≢ p.performance_tier)
    ⊎ (s.load_level ≢ p.load_level)
    ⊎ (d ≤ moved s.cost_efficiency_score p.cost_efficiency_score)
    ⊎ (d ≤ moved s.security_risk_score p.security_risk_score)
    ⊎ (d ≤ moved s.gestalt_cohesion_score p.gestalt_cohesion_score)

index_inj : (a b : PerformanceTier) → index a ≡ index b → a ≡ b
unfolding index
index_inj a b h = ground arith

to_int_inj : (a b : LoadLevel) → to_int a ≡ to_int b → a ≡ b
unfolding to_int
to_int_inj a b h = ground arith

-- With previous statistics and a threshold from 0 up, the optimizer is triggered exactly when the
-- change is material, and the only field that the call writes is the flag, with the answer.
pub should_trigger_optimizer_iff :
    (p s : GestaltStats) (d : ℕ)
    → (((should_trigger_optimizer (some p) (pos d) s).0 ≡ true) ↔ IsMaterial p d s)
      × ((should_trigger_optimizer (some p) (pos d) s).1
          ≡ record s { optimizer_triggered = (should_trigger_optimizer (some p) (pos d) s).0 })
unfolding should_trigger_optimizer
should_trigger_optimizer_iff p s d = (
  (
    λ h. ground (
      arith,
      index_inj s.performance_tier p.performance_tier,
      to_int_inj s.load_level p.load_level,
    ),
    λ m. ground (
      arith,
      index_inj s.performance_tier p.performance_tier,
      to_int_inj s.load_level p.load_level,
    ),
  ),
  refl,
)

unfoldable pub rank : String → ℕ
rank route =
    if str_eq route "critical"
    then 3
    else if str_eq route "high"
    then 2
    else if str_eq route "medium"
    then 1
    else 0

rank-if : (b : Bool) (x y : String) → rank (if b then x else y) ≡ (if b then rank x else rank y)
rank-if true x y = refl
rank-if false x y = refl

abbrev load_rank : ℕ → ℕ
load_rank n = if leb 4 n then 2 else if n == 3 then 1 else 0

rank-route :
    (s : GestaltStats)
    → rank (preferred_model_route s)
      ≡ max (index s.performance_tier) (load_rank (to_int s.load_level))
unfolding preferred_model_route
rank-route s = simp rank-if (unfold rank in ground arith)

-- A worse performance tier and a higher load never ask for a lesser model route.
pub derive_model_policy_mono :
    (s t : GestaltStats)
    → index s.performance_tier ≤ index t.performance_tier
    → to_int s.load_level ≤ to_int t.load_level
    → rank (derive_model_policy s).preferred_route ≤ rank (derive_model_policy t).preferred_route
unfolding derive_model_policy
derive_model_policy_mono s t h k = ground (arith, rank-route s, rank-route t)
