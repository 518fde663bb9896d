-- ===== src/Examples/Memories.antt =====
-- The theorems on the blackboard at concrete inputs.
use gestalt_agentic_software.Protocol.Constraints.{check_stats_report}
use gestalt_agentic_software.Prelude.Int.{pos}
use gestalt_agentic_software.Stats.Levels.{LoadLevel, PerformanceTier}
use gestalt_agentic_software.Python.Exec.{ok, raise_with, validation_error}
use gestalt_agentic_software.Blackboard.Latest.{get-update_prompt_policy, get-write_stats_report}
use gestalt_agentic_software.Protocol.Reports.{GestaltStatsReport}
use gestalt_agentic_software.Python.Values.{str, Float}
use gestalt_agentic_software.Prelude.{[], ℕ, ◌∷◌, ◌≡◌, arith, some, refl}
use gestalt_agentic_software.Protocol.Enums.{BlackboardQueryMode}
use gestalt_agentic_software.Blackboard.{
  query_memory, GestaltBlackboard, get_prompt_policy, has_key, update_prompt_policy,
  write_stats_report, get_latest_stats, check_agent_health, reload_stats, newest_first,
}
use gestalt_agentic_software.Blackboard.Query.{IsAnswer, query_memory-IsAnswer}
use gestalt_agentic_software.Protocol.Models.{BlackboardQuery, Metadata, Uuid}
use gestalt_agentic_software.Examples.Data.{board, host, at, floats}

abbrev query : BlackboardQuery
query = record { query = "queue"; mode = BlackboardQueryMode.hybrid; limit = 2; filters = [] }

query_memory-IsAnswer_example :
    IsAnswer host.same_value host.uuid_text board query
      (query_memory host.same_value host.uuid_text board query 3).matches
query_memory-IsAnswer_example = query_memory-IsAnswer host.same_value host.uuid_text board query 3

abbrev overlay : Metadata
overlay = ("tone", str "brief") ∷ []

abbrev overlaid : GestaltBlackboard
overlaid = record board {
  overlays = record { target = "monitor"; overlay = []; created_at = at 100 } ∷ [];
}

get-update_prompt_policy_example :
    get_prompt_policy (update_prompt_policy (at 900) "monitor" overlay overlaid) "monitor" ≡ overlay
get-update_prompt_policy_example =
    get-update_prompt_policy (at 900) "monitor" overlay overlaid (omega arith, tt)

abbrev report : Uuid → ℕ → Float → GestaltStatsReport
report id captured p95 = record {
  report_id = id;
  trace_id = 1;
  collected_by = "monitor";
  load_level = LoadLevel.low;
  performance_tier = PerformanceTier.low;
  cost_efficiency_score = pos 90;
  security_risk_score = pos 10;
  gestalt_cohesion_score = pos 95;
  queue_depth = pos 1;
  active_cycles = pos 1;
  failure_ratio = 0;
  p95_latency_ms = p95;
  agent_health = [];
  captured_at = at captured;
}

abbrev reported : GestaltBlackboard
reported = record board { stats_reports = report 1 100 2400 ∷ report 2 200 0 ∷ [] }

-- The float inf.
abbrev infinite : Float
infinite = 0x7ff0000000000000

get-write_stats_report_example :
    ((write_stats_report (report 3 300 infinite) reported).0 ≡ ok (report 3 300 infinite))
    × (get_latest_stats floats (write_stats_report (report 3 300 infinite) reported).1
        ≡ raise_with validation_error "validation error")
unfolding has_key check_agent_health check_stats_report
get-write_stats_report_example =
    get-write_stats_report floats (report 3 300 infinite) reported
      (record { health = refl; report = refl }) refl (omega arith, (omega arith, tt))

finite_report :
    get_latest_stats floats (write_stats_report (report 3 300 1200) reported).1
    ≡ ok (some (report 3 300 1200))
unfolding get_latest_stats reload_stats newest_first write_stats_report check_agent_health
    check_stats_report
finite_report = refl
