-- ===== src/Agents/Monitoring.antt =====
-- The monitor of gestalt/agents/monitor.py changes the services in the way of its tools, and reports a
-- risk in its range.
use gestalt_agentic_software.Python.Floats.{int_of}
use gestalt_agentic_software.Tools.Effects.{AreTame}
use gestalt_agentic_software.Events.Interface.{IsMemory}
use gestalt_agentic_software.Tools.Outputs.{ToolInput, ToolOutput}
use gestalt_agentic_software.Graph.Specialist.{IsPlain}
use gestalt_agentic_software.Tools.Registry.{ToolRegistry}
use gestalt_agentic_software.Tools.Fields.{Coercions}
use gestalt_agentic_software.BaseAgent.Artifacts.{check_artifacts, AgentArtifacts}
use gestalt_agentic_software.Agents.Telemetry.{updated_stats, snapshot_of}
use gestalt_agentic_software.BaseAgent.ServicesRun.{
  make_command-Runs, complete_structured-Runs, make_memory-Runs, query_prometheus-Runs,
}
use gestalt_agentic_software.Python.Exec.{ok, ◌>>=◌, pure, lift}
use gestalt_agentic_software.BaseAgent.Make.{make_command}
use gestalt_agentic_software.Stats.Model.{GestaltStats, MonitorSnapshot}
use gestalt_agentic_software.Protocol.Validation.{in_score_range}
use gestalt_agentic_software.Protocol.Constraints.{check_stats_report}
use gestalt_agentic_software.Agents.Monitor.{
  audit_command, make_stats_report, optimize_command, stats_report_of, monitor_artifacts,
  report_artifacts, take_snapshot, health_snapshots,
}
use gestalt_agentic_software.Protocol.Models.{Metadata, AgentHealthSnapshot}
use gestalt_agentic_software.Protocol.Reports.{
  GestaltGraphState, GestaltStatsReport, AgentContextEnvelope,
}
use gestalt_agentic_software.BaseAgent.Behaves.{
  Runs, pure-Runs, then-Behaves, lift-Runs, validated-ok, Behaves, on_world-Runs, lift-Behaves,
  bind-Behaves, IsStep,
}
use gestalt_agentic_software.Runtime.{Host, World}
use gestalt_agentic_software.Prelude.{
  Bool, List, String, arith, [], ◌∷◌, ◌≡◌, false, some, true, ◌≤◌, sym, ◌∙◌, refl,
}
use gestalt_agentic_software.Protocol.Enums.{GestaltCommandType}
use gestalt_agentic_software.Config.{GestaltSettings}
use gestalt_agentic_software.Runtime
use mathlib.Core.Path.{subst}
use mathlib.Core.Option.{some-injective}

module _ {R : World → World → Type 0} (laws : IsStep R) where
  module _ (settings : GestaltSettings) (host : Host) (state : GestaltGraphState) where
    command-Runs :
        (type : GestaltCommandType) (issuer target rationale : String) (payload : Metadata)
        → Runs R (
            make_command host state.trace_id type issuer target rationale payload >>= λ c.
            pure (c ∷ []))
    command-Runs type issuer target rationale payload =
        then-Behaves laws _ _ _
          (make_command-Runs laws host state.trace_id type issuer target rationale payload)
          λ c. pure-Runs laws (c ∷ [])

    optimize-Runs :
        (drifted : Bool) (report : GestaltStatsReport)
        → Runs R (optimize_command settings host state drifted report)
    unfolding optimize_command
    optimize-Runs false report = pure-Runs laws []
    optimize-Runs true report = command-Runs _ _ _ _ _

    audit-Runs : (needed : Bool) → Runs R (audit_command settings host state needed)
    unfolding audit_command
    audit-Runs false = pure-Runs laws []
    audit-Runs true = command-Runs _ _ _ _ _

    -- The risk of the monitor's report is in its range.
    abbrev HasRisk : GestaltStatsReport → Type 0
    HasRisk r = in_score_range r.security_risk_score ≡ true

    checked_report :
        (r report : GestaltStatsReport)
        → check_stats_report host.floats r ≡ ok report
        → HasRisk report
    unfolding check_stats_report
    checked_report r report e =
        let (tests, same) = validated-ok _ r report e in subst HasRisk same (ground arith)

    stats_report-Behaves :
        (updated : GestaltStats) (m : MonitorSnapshot) (health : List AgentHealthSnapshot)
        → Behaves R HasRisk (make_stats_report settings host state updated m health)
    unfolding make_stats_report Runtime.new_uuid Runtime.utc_now
    stats_report-Behaves updated m health = record {
      goes = λ s. laws.quiet s.world _ (record { later = omega arith; memory = λ k. k }) refl;
      gives = λ s report e.
          checked_report
            (stats_report_of settings host state updated m health s.world.uuids
              (record { instant = host.clock s.world.ticks; aware = true }))
            report e;
    }

    updated_stats-Runs :
        (m : MonitorSnapshot) (stats : GestaltStats)
        → Runs R (Runtime.on_world (updated_stats host settings m stats))
    updated_stats-Runs m stats = on_world-Runs _ λ w.
        laws.quiet w _ (record { later = later w; memory = λ k. subst IsMemory (sym (same w)) k })
          (unsent w)
      where
        later : (w : World) → w.ticks ≤ (updated_stats host settings m stats w).1.ticks
        later w = unfold updated_stats in ground arith

        same : (w : World) → (updated_stats host settings m stats w).1.bus ≡ w.bus
        same w = unfold updated_stats in ground arith

        unsent : (w : World) → (updated_stats host settings m stats w).1.outside ≡ w.outside
        unsent w = unfold updated_stats in ground arith

    -- Artifacts with a report whose risk is in its range.
    reported-Behaves :
        (a : AgentArtifacts) (report : GestaltStatsReport)
        → a.metadata_updates ≡ []
        → a.stats_report ≡ some report
        → HasRisk report
        → Behaves R IsPlain (lift (check_artifacts a))
    unfolding check_artifacts
    reported-Behaves a report metadata given risk =
        lift-Behaves laws IsPlain (check_artifacts a) plain
      where
        plain : (b : AgentArtifacts) → check_artifacts a ≡ ok b → IsPlain b
        plain b e = subst IsPlain (validated-ok _ a b e).1 (record {
          no_metadata = metadata;
          risk = λ r q. subst HasRisk (some-injective _ _ (sym given ∙ q)) risk;
        })

    module _ (coercions : Coercions) (tools : ToolRegistry World ToolInput ToolOutput)
        (tame : AreTame R tools) (context : AgentContextEnvelope) where
      take_snapshot-Runs : Runs R (take_snapshot settings host coercions tools state)
      unfolding take_snapshot
      take_snapshot-Runs =
          then-Behaves laws _ _ _
            (query_prometheus-Runs laws settings host "monitor" tools tame state _)
            λ queue.
              then-Behaves laws _ _ _
                (query_prometheus-Runs laws settings host "monitor" tools tame state _)
                λ latency.
                  then-Behaves laws _ _ _
                    (query_prometheus-Runs laws settings host "monitor" tools tame state _)
                    λ errors.
                      then-Behaves laws _ _ _ (lift-Runs laws (int_of host.floats queue.value))
                        λ depth.
                          lift-Runs laws (snapshot_of host state depth latency.value errors.value)

      report_artifacts-Behaves :
          (m : MonitorSnapshot) (updated : GestaltStats) (summary : String)
          (report : GestaltStatsReport)
          → HasRisk report
          → Behaves R IsPlain
              (report_artifacts settings host coercions tools state m updated summary report)
      unfolding report_artifacts
      report_artifacts-Behaves m updated summary report risk =
          then-Behaves laws IsPlain _ _ (optimize-Runs _ report) λ optimize.
            then-Behaves laws IsPlain _ _ (audit-Runs _) λ audit.
              then-Behaves laws IsPlain _ _ (make_memory-Runs laws host state.trace_id _ _ _ _ _)
                λ memory. reported-Behaves _ report refl refl risk

      pub monitor-Behaves :
          Behaves R IsPlain (monitor_artifacts settings host coercions tools context state)
      unfolding monitor_artifacts
      monitor-Behaves = then-Behaves laws IsPlain _ _ take_snapshot-Runs λ m.
          then-Behaves laws IsPlain _ _ (updated_stats-Runs m state.stats) λ updated.
            then-Behaves laws IsPlain _ _
              (complete_structured-Runs laws settings host "monitor" _ _ _ _ _)
              λ reasoning.
                then-Behaves laws IsPlain _ _
                  (lift-Runs laws (health_snapshots settings host settings.agents))
                  λ health.
                    bind-Behaves laws IsPlain HasRisk _ _ (stats_report-Behaves updated m health)
                      λ report risk.
                        report_artifacts-Behaves m updated reasoning.summary report risk
