-- ===== src/BaseAgent/Run.antt =====
-- What `run` returns, whatever the agent's own logic does.
use gestalt_agentic_software.BaseAgent.Update.{Gives, attempt-IsUpdate, any-Gives}
use gestalt_agentic_software.BaseAgent.Outputs.{apply_state_update}
use gestalt_agentic_software.BaseAgent.Artifacts.{Agent, AgentArtifacts}
use gestalt_agentic_software.BaseAgent.Turn.{attempt, run, recover}
use gestalt_agentic_software.BaseAgent.Clock.{Advances}
use gestalt_agentic_software.BaseAgent.Failure.{IsMonotone, IsFailed, recover-IsFailed}
use mathlib.Core.List.{append-nil}
use gestalt_agentic_software.BaseAgent.Clock.{attempt-Advances}
use gestalt_agentic_software.Protocol.Enums.{AgentDecision}
use gestalt_agentic_software.Protocol.Models.{
  GestaltMessage, Datetime, GestaltCommand, BlackboardMemoryRecord,
}
use gestalt_agentic_software.Protocol.Reports.{
  GestaltGraphState, EventApproval, AgentExecutionReport, AgentContextEnvelope,
}
use gestalt_agentic_software.Config.{GestaltSettings}
use gestalt_agentic_software.Python.Exec.{Result, ok, raised, Exc, handle}
use gestalt_agentic_software.Prelude.{
  String, ◌≡◌, List, ◌++◌, arith, ◌∷◌, [], refl, sym, ◌≤◌, str_len, ap, true, ◌+◌,
}
use gestalt_agentic_software.Runtime.{Host, World, Session}
use gestalt_agentic_software.Runtime

-- The state after a turn: the cycle is the same one, its histories are prolonged, and one report of
-- the agent is added.
pub record Extends (name : String) (before after : GestaltGraphState) : Type 0 where
  pub trace_id : after.trace_id ≡ before.trace_id
  pub cycle_id : after.cycle_id ≡ before.cycle_id
  pub objective : after.objective ≡ before.objective
  pub command_results : after.command_results ≡ before.command_results
  pub messages : (new : List GestaltMessage) × (after.messages ≡ before.messages ++ new)
  pub commands : (new : List GestaltCommand) × (after.commands ≡ before.commands ++ new)
  pub memories : (new : List BlackboardMemoryRecord) × (after.memories ≡ before.memories ++ new)
  pub decisions : (new : List AgentDecision) × (after.decisions ≡ before.decisions ++ new)
  pub reports :
      (r : AgentExecutionReport) × (after.execution_reports ≡ before.execution_reports ++ r ∷ [])
      × (r.agent_name ≡ name)

module _ (settings : GestaltSettings) (host : Host) (agent : Agent) where
  apply-Extends :
      (state : GestaltGraphState) (approvals : List EventApproval) (messages : List GestaltMessage)
      (a : AgentArtifacts) (r : AgentExecutionReport)
      → r.agent_name ≡ agent.agent_name
      → Extends agent.agent_name state
          (apply_state_update (record state { approvals = approvals }) messages a r)
  unfolding apply_state_update
  apply-Extends state approvals messages a r named = record {
    trace_id = refl;
    cycle_id = refl;
    objective = refl;
    command_results = refl;
    messages = (messages, refl);
    commands = (a.commands, refl);
    memories = (a.memories, refl);
    decisions = (a.decisions, refl);
    reports = (r, refl, named);
  }

  attempt-Extends :
      (started : Datetime) (state : GestaltGraphState)
      → Gives (Extends agent.agent_name state) (attempt settings host agent started state)
  attempt-Extends started state = record {
    at = λ s g q.
        let u =
          (attempt-IsUpdate settings host agent (λ _. Unit {0})
              (λ c m x. any-Gives (agent.produce_artifacts c m x)) started state).at
            s g q in
        rw u.is (apply-Extends state u.approvals u.messages u.artifacts u.report u.named);
  }

IsFailed-Extends :
    (name : String) (exc : Exc) (before after : GestaltGraphState)
    → IsFailed name exc before after
    → Extends name before after
IsFailed-Extends name exc before after f = rw f.after_eq (record {
  trace_id = refl;
  cycle_id = refl;
  objective = refl;
  command_results = refl;
  messages = ([], sym (append-nil before.messages));
  commands = ([], sym (append-nil before.commands));
  memories = ([], sym (append-nil before.memories));
  decisions = ([], sym (append-nil before.decisions));
  reports = (f.report, refl, f.named);
})

module _ (settings : GestaltSettings) (host : Host) (agent : Agent) (mono : IsMonotone host)
    (produce-Advances : (c : AgentContextEnvelope) (m : List GestaltMessage) (g : GestaltGraphState)
      → Advances (agent.produce_artifacts c m g))
    (long : 2 ≤ str_len agent.agent_name) where
  handled :
      (state : GestaltGraphState) (started : Datetime) (s t : Session)
      (r : Result GestaltGraphState)
      → (attempt settings host agent started state s) ≡ (r, t)
      → started.instant ≤ host.clock t.world.ticks
      → (after : GestaltGraphState) × ((handle r (recover settings host agent started state) t).0
          ≡ ok after)
        × Extends agent.agent_name state after
  handled state started s t (ok after) eq later = (
    after,
    refl,
    (attempt-Extends settings host agent started state).at s after
        (ap (λ (x : Result GestaltGraphState × Session). x.0) eq),
  )
  handled state started s t (raised exc) eq later =
      let (after, returns, failed) =
        recover-IsFailed settings host agent state exc started t long later in
      (after, returns, IsFailed-Extends agent.agent_name exc state after failed)

  -- Whatever its own logic does, an agent's turn returns a state, which goes on from the given one:
  -- the cycle is the same, the histories are prolonged, and one report of the agent is added. An
  -- exception inside the turn never leaves `run`. The clock must not go back, the agent's own logic
  -- must not turn it back nor replace a bus in memory, and the agent's name must have at
  -- least two characters.
  pub run-Extends :
      (state : GestaltGraphState) (w : World)
      → (after : GestaltGraphState) × ((run settings host agent state w).0 ≡ ok after)
        × Extends agent.agent_name state after
  unfolding run Runtime.utc_now
  run-Extends state w =
      let started : Datetime = record { instant = host.clock w.ticks; aware = true } in
      let s : Session = record {
        world = record w { ticks = w.ticks + 1 };
        approvals = state.approvals;
      } in
      let (r, t) = attempt settings host agent started state s in
      handled state started s t r refl (
        mono.later w.ticks t.world.ticks (
          omega (
            arith,
            ((attempt-Advances settings host agent produce-Advances started state).at s).later,
          )))
