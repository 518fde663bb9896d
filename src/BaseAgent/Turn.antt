-- ===== src/BaseAgent/Turn.antt =====
-- gestalt/base_agent.py: `run`.
use gestalt_agentic_software.BaseAgent.Outputs.{
  build_execution_report, apply_state_update, persist_outputs,
}
use gestalt_agentic_software.BaseAgent.Context.{
  prepare_context, run_alignment_checks, build_input_messages,
}
use gestalt_agentic_software.BaseAgent.Artifacts.{Agent, check_artifacts, summary_only}
use gestalt_agentic_software.Python.Values.{str}
use gestalt_agentic_software.Protocol.Enums.{CommandStatus}
use gestalt_agentic_software.Protocol.Models.{Datetime}
use gestalt_agentic_software.Protocol.Reports.{GestaltGraphState}
use gestalt_agentic_software.Config.{GestaltSettings}
use gestalt_agentic_software.Python.Exec.{Exec, Exc, pure, ◌>>=◌, lift, try_except, ◌>>◌, gets}
use gestalt_agentic_software.Prelude.{[], ◌+++◌, ◌++◌}
use gestalt_agentic_software.Python.Dict
use gestalt_agentic_software.Python.Dict.{Dict, string_key}
use gestalt_agentic_software.Runtime.{Host, World, Session}
use gestalt_agentic_software.Runtime

-- The state as its holder sees it now: the approvals that the turn appended are in it.
abbrev pub seen : GestaltGraphState → Session → GestaltGraphState
seen state s = record state { approvals = s.approvals }

module _ (settings : GestaltSettings) (host : Host) (agent : Agent) where
  -- The body of the `try` in `run`.
  unfoldable pub attempt : Datetime → GestaltGraphState → Exec Session GestaltGraphState
  attempt started_at state = do
    context ← prepare_context settings host agent state
    lift (run_alignment_checks settings host agent context state)
    messages ← Runtime.on_world (build_input_messages settings host agent context state)
    now_state ← gets (seen state)
    artifacts ← agent.produce_artifacts context messages now_state
    Runtime.on_board (persist_outputs artifacts)
    report ← Runtime.on_world (
        build_execution_report settings host agent state artifacts started_at
          CommandStatus.completed)
    after ← gets (seen state)
    pure (apply_state_update after (messages ++ artifacts.messages) artifacts report)

  -- The handler of the `except` in `run`.
  unfoldable pub recover : Datetime → GestaltGraphState → Exc → Exec Session GestaltGraphState
  recover started_at state exc = do
    artifacts ←
        lift (check_artifacts (summary_only (agent.agent_name +++ " failed: " +++ exc.message)))
    report ←
        Runtime.on_world (
          build_execution_report settings host agent state artifacts started_at
            CommandStatus.failed)
    after ← gets (seen state)
    let failed = apply_state_update after [] artifacts report
    pure (record failed { metadata = Dict.put failed.metadata "last_error" (str exc.message) })

  abbrev turn : GestaltGraphState → Exec Session GestaltGraphState
  turn state = do
    started_at ← Runtime.on_world (Runtime.utc_now host)
    try_except (attempt started_at state) (recover started_at state)

  unfoldable pub run : GestaltGraphState → Exec World GestaltGraphState
  run state w =
      let (r, s) = turn state (record { world = w; approvals = state.approvals }) in (r, s.world)
