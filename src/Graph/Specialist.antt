-- ===== src/Graph/Specialist.antt =====
-- A specialist's turn leaves the orchestrator's plan alone.
use gestalt_agentic_software.Runtime
use gestalt_agentic_software.Python.Returns.{Returns}
use gestalt_agentic_software.Events.Interface.{IsMemory}
use gestalt_agentic_software.BaseAgent.Turn.{recover, run, attempt}
use gestalt_agentic_software.Runtime.{Host, Session, World}
use gestalt_agentic_software.Config.{GestaltSettings}
use gestalt_agentic_software.Prelude.Int.{ℤ}
use gestalt_agentic_software.BaseAgent.Update.{Gives, attempt-IsUpdate}
use gestalt_agentic_software.BaseAgent.Clock.{Advances, attempt-Advances}
use gestalt_agentic_software.Protocol.Validation.{in_score_range}
use gestalt_agentic_software.Stats.Model.{GestaltStats}
use gestalt_agentic_software.BaseAgent.Failure.{IsFailed, IsMonotone, recover-IsFailed}
use gestalt_agentic_software.Protocol.Models.{AgentHealthSnapshot, GestaltMessage, Datetime}
use gestalt_agentic_software.Orchestrator.Setup.{IsSane}
use gestalt_agentic_software.Python.Exec.{Exc, Result, handle, ok, raised}
use gestalt_agentic_software.Stats.Policy.{set_agent_health}
use gestalt_agentic_software.Prelude.{
  String, List, Option, ◌≡◌, ◌≤◌, [], str_len, some, ◌∷◌, refl, true, sym, none, arith, ap, ◌+◌,
  ◌++◌, ◌∙◌,
}
use gestalt_agentic_software.BaseAgent.Outputs.{
  apply_state_update, merge_stats, set_health, build_execution_report,
}
use gestalt_agentic_software.Protocol.Reports.{
  GestaltGraphState, EventApproval, GestaltStatsReport, AgentContextEnvelope, AgentExecutionReport,
}
use gestalt_agentic_software.BaseAgent.Artifacts.{Agent, AgentArtifacts, check_artifacts}
use gestalt_agentic_software.Python.Dict
use gestalt_agentic_software.Python.Dict.{string_key}
use mathlib.Core.Path.{subst}

-- Artifacts that write no metadata, and whose report, if there is one, has a security risk in its range.
pub record IsPlain (a : AgentArtifacts) : Type 0 where
  pub no_metadata : a.metadata_updates ≡ []
  pub risk :
      (r : GestaltStatsReport)
      → a.stats_report ≡ some r
      → in_score_range r.security_risk_score ≡ true

-- What the graph asks of a specialist: its name, a logic that keeps the clock and the bus, and plain
-- artifacts.
pub record IsSpecialist (name : String) (agent : Agent) : Type 0 where
  pub named : agent.agent_name ≡ name
  pub long : 2 ≤ str_len agent.agent_name
  pub advances :
      (c : AgentContextEnvelope) (m : List GestaltMessage) (g : GestaltGraphState)
      → Advances (agent.produce_artifacts c m g)
  pub plain :
      (c : AgentContextEnvelope) (m : List GestaltMessage) (g : GestaltGraphState)
      → Gives IsPlain (agent.produce_artifacts c m g)

-- The plan is the same: the pending agents and what the orchestrator's checks read; one report of the
-- agent is added.
pub record KeepsPlan (name : String) (before after : GestaltGraphState) : Type 0 where
  pub pending : Dict.get after.metadata "pending_agents" ≡ Dict.get before.metadata "pending_agents"
  pub sane : IsSane before → IsSane after
  pub reports :
      (r : AgentExecutionReport) × (after.execution_reports ≡ before.execution_reports ++ r ∷ [])
      × (r.agent_name ≡ name)

set_health-risk :
    (hs : List AgentHealthSnapshot) (s : GestaltStats)
    → (set_health hs s).security_risk_score ≡ s.security_risk_score
unfolding set_health set_agent_health
set_health-risk [] s = refl
set_health-risk (h ∷ hs) s = set_health-risk hs _

merge_stats-risk :
    (report : Option GestaltStatsReport) (s : GestaltStats)
    → ((r : GestaltStatsReport) → report ≡ some r → in_score_range r.security_risk_score ≡ true)
    → in_score_range s.security_risk_score ≡ true
    → in_score_range (merge_stats report s).security_risk_score ≡ true
unfolding merge_stats
merge_stats-risk none s h k = k
merge_stats-risk (some r) s h k =
    subst (λ (z : ℤ). in_score_range z ≡ true) (sym (set_health-risk r.agent_health _)) (h r refl)

update-KeepsPlan :
    (name : String) (state : GestaltGraphState) (approvals : List EventApproval)
    (messages : List GestaltMessage) (a : AgentArtifacts) (r : AgentExecutionReport)
    → IsPlain a
    → r.agent_name ≡ name
    → KeepsPlan name state
        (apply_state_update (record state { approvals = approvals }) messages a r)
unfolding apply_state_update Dict.update
update-KeepsPlan name state approvals messages a r plain named = record {
  reports = (r, refl, named);
  pending = rw plain.no_metadata refl;
  sane = λ s. record {
    objective_long = s.objective_long;
    objective_blank = s.objective_blank;
    risk = merge_stats-risk a.stats_report state.stats plain.risk s.risk;
  };
}

failed-KeepsPlan :
    (name : String) (exc : Exc) (before after : GestaltGraphState)
    → IsFailed name exc before after
    → KeepsPlan name before after
failed-KeepsPlan name exc before after f = rw f.after_eq (record {
  reports = (f.report, refl, f.named);
  pending = Dict.get-put before.metadata "last_error" "pending_agents" _;
  sane = λ s. record {
    objective_long = s.objective_long;
    objective_blank = s.objective_blank;
    risk = s.risk;
  };
})

module _ (settings : GestaltSettings) {host : Host} (mono : IsMonotone host) {agent : Agent}
    {name : String} (good : IsSpecialist name agent) (state : GestaltGraphState) where
  recover-bus :
      (started : Datetime) (exc : Exc) (s : Session)
      → (recover settings host agent started state exc s).1.world.bus ≡ s.world.bus
  unfolding recover check_artifacts build_execution_report
  recover-bus started exc s = ground arith

  handled-Returns :
      (started : Datetime) (s t : Session) (r : Result GestaltGraphState)
      → attempt settings host agent started state s ≡ (r, t)
      → started.instant ≤ host.clock t.world.ticks
      → IsMemory t.world.bus
      → Returns
          (handle r (recover settings host agent started state))
          t
          (λ g u. KeepsPlan name state g × IsMemory u.world.bus)
  handled-Returns started s t (ok after) eq later kept =
      let u =
        (attempt-IsUpdate settings host agent IsPlain good.plain started state).at s after
          (ap (λ (x : Result GestaltGraphState × Session). x.0) eq) in
      record {
        value = after;
        final = t;
        eq = refl;
        holds = (
          rw u.is (
              update-KeepsPlan name state u.approvals u.messages u.artifacts u.report u.given
                (u.named ∙ good.named)),
          kept,
        );
      }
  handled-Returns started s t (raised exc) eq later kept =
      let (after, returns, failed) =
        recover-IsFailed settings host agent state exc started t good.long later in
      record {
        value = after;
        final = (recover settings host agent started state exc t).1;
        eq =
            ap
              (λ (x : Result GestaltGraphState).
                (x, (recover settings host agent started state exc t).1))
              returns;
        holds = (
          subst (λ (n : String). KeepsPlan n state after) good.named
              (failed-KeepsPlan agent.agent_name exc state after failed),
          subst IsMemory (sym (recover-bus started exc t)) kept,
        );
      }

  -- A specialist's turn returns, and the plan is the same afterwards.
  pub specialist-Returns :
      (w : World)
      → IsMemory w.bus
      → Returns (run settings host agent state) w (λ g v. KeepsPlan name state g × IsMemory v.bus)
  unfolding run Runtime.utc_now
  specialist-Returns w kept =
      let started : Datetime = record { instant = host.clock w.ticks; aware = true } in
      let s : Session = record {
        world = record w { ticks = w.ticks + 1 };
        approvals = state.approvals;
      } in
      let (r, t) = attempt settings host agent started state s in
      let goes = (attempt-Advances settings host agent good.advances started state).at s in
      let k =
        handled-Returns started s t r refl
          (mono.later w.ticks t.world.ticks (omega (arith, goes.later))) (goes.memory kept) in
      record {
        value = k.value;
        final = k.final.world;
        eq = ap (λ (x : Result GestaltGraphState × Session). (x.0, x.1.world)) k.eq;
        holds = k.holds;
      }
