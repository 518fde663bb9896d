-- ===== src/Orchestrator/Cohesion.antt =====
-- gestalt/orchestrator.py: `evaluate_cohesion`.
use gestalt_agentic_software.Blackboard.{compute_cohesion_inputs, CohesionInputs}
use gestalt_agentic_software.Prelude.Int.{ℤ, pos, max_ℤ, min_ℤ, ◌-ℤ◌}
use gestalt_agentic_software.Config.{GestaltSettings}
use gestalt_agentic_software.Protocol.Reports.{GestaltGraphState}
use gestalt_agentic_software.Python.Exec.{Exec, ◌>>=◌, gets, pure}
use gestalt_agentic_software.Prelude.{◌*◌, ◌+◌, ◌/◌, zero}
use gestalt_agentic_software.Python.Dict.{string_key}
use gestalt_agentic_software.Runtime.{Session}

-- state.stats.gestalt_cohesion_score or 100
abbrev pub score_or_hundred : ℤ → ℤ
score_or_hundred (pos zero) = pos 100
score_or_hundred score = score

module _ (settings : GestaltSettings) where
  -- int(average / 10), with a penalty for each failed command, taken from the score or from 100
  unfoldable pub cohesion_of : ℤ → CohesionInputs → ℤ
  cohesion_of score inputs =
      let penalty =
        inputs.failed_commands * settings.stats.cohesion_penalties.failed_command
        + inputs.risk_total / (10 * inputs.risk_rows) in
      let base = score_or_hundred score in max_ℤ (pos 0) (min_ℤ (pos 100) (base -ℤ pos penalty))

  unfoldable pub evaluate_cohesion : GestaltGraphState → Exec Session ℤ
  unfolding cohesion_of compute_cohesion_inputs
  evaluate_cohesion state = do
    board ← gets (λ s. s.world.board)
    pure (cohesion_of state.stats.gestalt_cohesion_score (compute_cohesion_inputs board))
