-- ===== src/Stats/Tiers.antt =====
-- The load level and the performance tier: their thresholds, and the moves up and down.
use gestalt_agentic_software.Stats.Levels.{to_int, index}
use gestalt_agentic_software.Python.Exec.{ok}
use gestalt_agentic_software.Prelude.{
  ℕ, ◌≡◌, ◌≤◌, arith, suc, Bool, ◌+◌, min, true, false, max, ◌-◌,
}
use gestalt_agentic_software.Python.Floats.{}
use gestalt_agentic_software.Stats.Model.{StatsThresholds, GestaltStats}
use gestalt_agentic_software.Prelude.Int.{ℤ, ◌≤ℤ◌, max_ℤ, ◌*ℤ◌, pos, int_laws, leb_ℤ}
use gestalt_agentic_software.Stats.Policy.{
  derive_load_level, load_level_at, promote_load, demote_load, promote_performance,
  demote_performance,
}

-- The level rises with the pressure on the queue and never falls, whatever the thresholds.
load_level_at_mono :
    (t : StatsThresholds) (p q : ℤ)
    → p ≤ℤ q
    → to_int (load_level_at t p) ≤ to_int (load_level_at t q)
unfolding load_level_at to_int
load_level_at_mono t p q h = ground arith

max_ℤ_mono : (a b c d : ℤ) → a ≤ℤ c → b ≤ℤ d → max_ℤ a b ≤ℤ max_ℤ c d
max_ℤ_mono a b c d h k = ground arith

-- A deeper queue and more active cycles never lower the load level, whatever the thresholds.
pub derive_load_level_mono :
    (t : StatsThresholds) (q q' a a' : ℤ)
    → q ≤ℤ q'
    → a ≤ℤ a'
    → to_int (derive_load_level q a t) ≤ to_int (derive_load_level q' a' t)
unfolding derive_load_level
derive_load_level_mono t q q' a a' h k =
    load_level_at_mono t _ _ (max_ℤ_mono q (a *ℤ pos 5) q' (a' *ℤ pos 5) h (omega int_laws))

abbrev count_of : Bool → ℕ
count_of true = 1
count_of false = 0

-- The number of thresholds that a pressure reaches.
abbrev pub reached : StatsThresholds → ℤ → ℕ
reached t p =
    count_of (leb_ℤ t.queue_low p)
    + count_of (leb_ℤ t.queue_medium p)
    + count_of (leb_ℤ t.queue_high p)
    + count_of (leb_ℤ t.queue_critical p)

pub record AreOrdered (t : StatsThresholds) : Type 0 where
  pub low_medium : t.queue_low ≤ℤ t.queue_medium
  pub medium_high : t.queue_medium ≤ℤ t.queue_high
  pub high_critical : t.queue_high ≤ℤ t.queue_critical

-- With thresholds in ascending order, the level's number is one more than the number of thresholds
-- that the greater of the queue depth and five times the active cycles reaches.
pub derive_load_level-reached :
    (t : StatsThresholds) (q a : ℤ)
    → AreOrdered t
    → to_int (derive_load_level q a t) ≡ suc (reached t (max_ℤ q (a *ℤ pos 5)))
unfolding derive_load_level to_int
derive_load_level-reached t q a o = ground arith

promote-demote_load :
    (s : GestaltStats)
    → ((promote_load s).0 ≡ ok (promote_load s).1.load_level)
      × (to_int (promote_load s).1.load_level ≡ min 5 (to_int s.load_level + 1))
      × ((demote_load s).0 ≡ ok (demote_load s).1.load_level)
      × (to_int (demote_load s).1.load_level ≡ max 1 (to_int s.load_level - 1))
unfolding promote_load demote_load
promote-demote_load s = ground arith

promote-demote_performance :
    (s : GestaltStats)
    → ((promote_performance s).0 ≡ ok (promote_performance s).1.performance_tier)
      × (index (promote_performance s).1.performance_tier ≡ min 3 (index s.performance_tier + 1))
      × ((demote_performance s).0 ≡ ok (demote_performance s).1.performance_tier)
      × (index (demote_performance s).1.performance_tier ≡ index s.performance_tier - 1)
unfolding promote_performance demote_performance
promote-demote_performance s = ground arith

-- Promotion and demotion of the load level and of the performance tier never raise an exception; they
-- return the level that they leave, which is one step up or down from the one before in the order of the
-- levels (low, medium, high, critical for the tier), or the same at the ends.
pub promote-demote :
    (s : GestaltStats)
    → ((promote_load s).0 ≡ ok (promote_load s).1.load_level)
      × (to_int (promote_load s).1.load_level ≡ min 5 (to_int s.load_level + 1))
      × ((demote_load s).0 ≡ ok (demote_load s).1.load_level)
      × (to_int (demote_load s).1.load_level ≡ max 1 (to_int s.load_level - 1))
      × ((promote_performance s).0 ≡ ok (promote_performance s).1.performance_tier)
      × (index (promote_performance s).1.performance_tier ≡ min 3 (index s.performance_tier + 1))
      × ((demote_performance s).0 ≡ ok (demote_performance s).1.performance_tier)
      × (index (demote_performance s).1.performance_tier ≡ index s.performance_tier - 1)
promote-demote s =
    let (a, b, c, d) = promote-demote_load s in
    let (e, f, g, h) = promote-demote_performance s in (a, b, c, d, e, f, g, h)
