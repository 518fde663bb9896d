-- ===== src/Orchestrator/Score.antt =====
-- What `evaluate_cohesion` makes of the statistics and the blackboard.
use gestalt_agentic_software.Blackboard.{CohesionInputs}
use gestalt_agentic_software.Orchestrator.Cohesion.{cohesion_of, score_or_hundred}
use gestalt_agentic_software.Prelude.{ℕ, ◌<◌, ◌≤◌, arith, ◌/◌, ◌≡◌, ◌*◌, ◌+◌, sym}
use gestalt_agentic_software.Prelude.Int.{ℤ, pos, ◌≤ℤ◌, ◌-ℤ◌, max_ℤ, min_ℤ, -ℤ_parts}
use native.Mathlib.Nat.{div-mul-le_self, le-div_iff_mul-le, mul-le-mul_right}
use gestalt_agentic_software.Config.{GestaltSettings}

div_mono : (r s k : ℕ) → 0 < k → r ≤ s → r / k ≤ s / k
div_mono r s k positive le = (le-div_iff_mul-le positive).1 (omega (arith, div-mul-le_self r k))

-- The score goes down when the penalty goes up.
score_after_antitone :
    (base : ℤ) (p q : ℕ)
    → p ≤ q
    → max_ℤ (pos 0) (min_ℤ (pos 100) (base -ℤ pos q))
      ≤ℤ max_ℤ (pos 0) (min_ℤ (pos 100) (base -ℤ pos p))
score_after_antitone base p q le =
    let x = base -ℤ pos q in
    let y = base -ℤ pos p in ground (arith, -ℤ_parts base (pos p), -ℤ_parts base (pos q))

-- The score goes up with the one before.
score_after_mono :
    (a b : ℤ) (p : ℕ)
    → a ≤ℤ b
    → max_ℤ (pos 0) (min_ℤ (pos 100) (a -ℤ pos p)) ≤ℤ max_ℤ (pos 0) (min_ℤ (pos 100) (b -ℤ pos p))
score_after_mono a b p le = ground (arith, -ℤ_parts a (pos p), -ℤ_parts b (pos p))

score_or_hundred-positive : (s : ℤ) → pos 1 ≤ℤ s → score_or_hundred s ≡ s
score_or_hundred-positive s h = ground arith

score_or_hundred-below : (s : ℤ) → s ≤ℤ pos 100 → score_or_hundred s ≤ℤ pos 100
score_or_hundred-below s h = ground arith

module _ (settings : GestaltSettings) where
  -- The cohesion score is between 0 and 100, whatever the statistics and the counts are.
  pub cohesion_of-IsScore :
      (score : ℤ) (inputs : CohesionInputs)
      → (pos 0 ≤ℤ cohesion_of settings score inputs)
        × (cohesion_of settings score inputs ≤ℤ pos 100)
  unfolding cohesion_of
  cohesion_of-IsScore score inputs = ground arith

  cohesion_of_antitone :
      (score : ℤ) (a b : CohesionInputs)
      → a.failed_commands ≤ b.failed_commands
      → a.risk_total ≤ b.risk_total
      → a.risk_rows ≡ b.risk_rows
      → 0 < a.risk_rows
      → cohesion_of settings score b ≤ℤ cohesion_of settings score a
  unfolding cohesion_of
  cohesion_of_antitone score a b failed risk rows positive =
      let c = settings.stats.cohesion_penalties.failed_command in
      let k = 10 * a.risk_rows in
      score_after_antitone (score_or_hundred score) (a.failed_commands * c + a.risk_total / k)
        (b.failed_commands * c + b.risk_total / (10 * b.risk_rows))
        (rw (sym rows) (
          omega (
            arith,
            mul-le-mul_right c failed,
            div_mono a.risk_total b.risk_total k (omega arith) risk,
          )))

  cohesion_of_mono :
      (s t : ℤ) (inputs : CohesionInputs)
      → pos 1 ≤ℤ s
      → s ≤ℤ t
      → cohesion_of settings s inputs ≤ℤ cohesion_of settings t inputs
  unfolding cohesion_of
  cohesion_of_mono s t inputs positive le =
      rw (score_or_hundred-positive s positive, score_or_hundred-positive t (omega arith))
        (score_after_mono s t _ le)

  -- Among positive scores, a lesser score before, more failed commands and a greater total of risk never
  -- give a greater cohesion score, if the number of audit rows, at least one, is the same.
  pub cohesion_of_monotone :
      (s t : ℤ) (a b : CohesionInputs)
      → pos 1 ≤ℤ s
      → s ≤ℤ t
      → a.failed_commands ≤ b.failed_commands
      → a.risk_total ≤ b.risk_total
      → a.risk_rows ≡ b.risk_rows
      → 0 < a.risk_rows
      → cohesion_of settings s b ≤ℤ cohesion_of settings t a
  cohesion_of_monotone s t a b positive le failed risk rows some_rows = omega (
    arith,
    cohesion_of_antitone s a b failed risk rows some_rows,
    cohesion_of_mono s t a positive le,
  )

  -- A cohesion score that fell to 0 is evaluated at least as high as any score up to 100.
  pub cohesion_of-zero :
      (s : ℤ) (inputs : CohesionInputs)
      → s ≤ℤ pos 100
      → cohesion_of settings s inputs ≤ℤ cohesion_of settings (pos 0) inputs
  unfolding cohesion_of
  cohesion_of-zero s inputs le =
      score_after_mono (score_or_hundred s) (pos 100) _ (score_or_hundred-below s le)
