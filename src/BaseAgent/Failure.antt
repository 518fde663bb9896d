-- ===== src/BaseAgent/Failure.antt =====
-- The `except` of `run`: a turn that raises ends in a report of the failure.
use gestalt_agentic_software.BaseAgent.Turn.{recover, seen}
use gestalt_agentic_software.BaseAgent.Outputs.{apply_state_update, build_execution_report}
use gestalt_agentic_software.BaseAgent.Artifacts.{Agent, check_artifacts, summary_only}
use gestalt_agentic_software.Python.Values.{str}
use gestalt_agentic_software.Protocol.Enums.{CommandStatus}
use gestalt_agentic_software.Protocol.Models.{Datetime}
use gestalt_agentic_software.Protocol.Reports.{
  GestaltGraphState, AgentExecutionReport, EventApproval,
}
use gestalt_agentic_software.Protocol.Validation.{min_length}
use gestalt_agentic_software.Python.Exec.{Exc, ok}
use gestalt_agentic_software.Config.{GestaltSettings}
use gestalt_agentic_software.Prelude.{
  String, ℕ, ◌≤◌, ◌+++◌, List, ◌≡◌, str_len, true, le→leb, none, [], arith, ◌++◌, ◌∷◌, ap, refl,
}
use gestalt_agentic_software.Python.Dict
use gestalt_agentic_software.Python.Dict.{string_key}
use gestalt_agentic_software.Runtime.{Host, Session}
use mathlib.Core.List.{append-nil}
use text.Mathlib.TextLemmas.{length-append as count-append}

-- The clock never goes back.
pub record IsMonotone (host : Host) : Type 0 where
  pub later : (m n : ℕ) → m ≤ n → host.clock m ≤ host.clock n

-- The state after a failed turn: the given one with a failed report of the agent, the message of the
-- exception under `last_error`, and whatever approvals the turn had appended.
pub record IsFailed (name : String) (exc : Exc) (before after : GestaltGraphState) : Type 0 where
  pub approvals : List EventApproval
  pub report : AgentExecutionReport
  pub failed : report.status ≡ CommandStatus.failed
  pub named : report.agent_name ≡ name
  pub emitted_nothing : (report.emitted_commands ≡ []) × (report.emitted_memories ≡ [])
  pub after_eq : after ≡ record before {
    approvals = approvals;
    execution_reports = before.execution_reports ++ report ∷ [];
    metadata = Dict.put before.metadata "last_error" (str exc.message);
  }

failure_text_long : (name message : String) → min_length 8 (name +++ " failed: " +++ message) ≡ true
failure_text_long name message =
    le→leb 8 _
      (omega (arith, count-append name (" failed: " +++ message), count-append " failed: " message))

module _ (settings : GestaltSettings) (host : Host) (agent : Agent) where
  abbrev failure : GestaltGraphState → Exc → Datetime → Session → AgentExecutionReport
  failure state exc started s = record {
    report_id = s.world.uuids;
    trace_id = state.trace_id;
    agent_name = agent.agent_name;
    command_id = none;
    status = CommandStatus.failed;
    summary = agent.agent_name +++ " failed: " +++ exc.message;
    emitted_commands = [];
    emitted_memories = [];
    metrics = [];
    started_at = started;
    finished_at = record { instant = host.clock s.world.ticks; aware = true };
  }

  report_ok :
      (state : GestaltGraphState) (exc : Exc) (started : Datetime) (s : Session)
      → 2 ≤ str_len agent.agent_name
      → started.instant ≤ host.clock s.world.ticks
      → (build_execution_report settings host agent state
          (summary_only (agent.agent_name +++ " failed: " +++ exc.message))
          started
          CommandStatus.failed
          s.world).0
        ≡ ok (failure state exc started s)
  unfolding build_execution_report
  report_ok state exc started s long later =
      ground (arith, failure_text_long agent.agent_name exc.message)

  abbrev failure_text : Exc → String
  failure_text exc = agent.agent_name +++ " failed: " +++ exc.message

  abbrev applied : GestaltGraphState → Exc → Datetime → Session → GestaltGraphState
  applied state exc started s =
      apply_state_update (seen state s) [] (summary_only (failure_text exc))
        (failure state exc started s)

  abbrev marked : GestaltGraphState → Exc → GestaltGraphState
  marked g exc = record g { metadata = Dict.put g.metadata "last_error" (str exc.message) }

  applied_eq :
      (state : GestaltGraphState) (exc : Exc) (started : Datetime) (s : Session)
      → applied state exc started s ≡ record state {
        approvals = s.approvals;
        execution_reports = state.execution_reports ++ failure state exc started s ∷ [];
      }
  unfolding apply_state_update Dict.update
  applied_eq state exc started s = simp append-nil

  recover_eq :
      (state : GestaltGraphState) (exc : Exc) (started : Datetime) (s : Session)
      → 2 ≤ str_len agent.agent_name
      → started.instant ≤ host.clock s.world.ticks
      → (recover settings host agent started state exc s).0
        ≡ ok (marked (applied state exc started s) exc)
  unfolding recover check_artifacts
  recover_eq state exc started s long later = ground (
    arith,
    failure_text_long agent.agent_name exc.message,
    report_ok state exc started s long later,
  )

  -- The handler of a turn that raised returns the given state with one failed report of the agent,
  -- which emits nothing, and with the exception's message under `last_error`; only the approvals may
  -- differ besides. The agent's name must have at least two characters, and the clock must not have
  -- gone back since the start of the turn.
  pub recover-IsFailed :
      (state : GestaltGraphState) (exc : Exc) (started : Datetime) (s : Session)
      → 2 ≤ str_len agent.agent_name
      → started.instant ≤ host.clock s.world.ticks
      → (after : GestaltGraphState) × ((recover settings host agent started state exc s).0
          ≡ ok after)
        × IsFailed agent.agent_name exc state after
  recover-IsFailed state exc started s long later = (
    marked (applied state exc started s) exc,
    recover_eq state exc started s long later,
    record {
      approvals = s.approvals;
      report = failure state exc started s;
      failed = refl;
      named = refl;
      emitted_nothing = (refl, refl);
      after_eq = ap (λ (g : GestaltGraphState). marked g exc) (applied_eq state exc started s);
    },
  )
