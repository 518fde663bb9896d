-- ===== src/Agents/PlannerExecutor.antt =====
-- gestalt/agents/planner_executor.py
use gestalt_agentic_software.Protocol.Enums.{GestaltCommandType, MemoryKind}
use gestalt_agentic_software.Prelude.Int.{pos}
use gestalt_agentic_software.Prelude.Strip.{strip}
use gestalt_agentic_software.Agents.Prompts.{planner_executor_prompt}
use gestalt_agentic_software.Protocol.Reports.{GestaltGraphState, AgentContextEnvelope}
use gestalt_agentic_software.BaseAgent.Artifacts.{
  Agent, check_artifacts, AgentArtifacts, summary_only,
}
use gestalt_agentic_software.BaseAgent.Make.{make_command, make_memory}
use gestalt_agentic_software.Tools.Outputs.{ToolInput, ToolOutput}
use gestalt_agentic_software.Python.Exec.{Result, ok, Exec, pure, ◌>>=◌, lift}
use gestalt_agentic_software.Tools.Registry.{ToolRegistry}
use gestalt_agentic_software.Protocol.Models.{GestaltCommand, Metadata}
use gestalt_agentic_software.Runtime.{Host, World, Session}
use gestalt_agentic_software.Python.Values.{Value, str, bool, int}
use gestalt_agentic_software.Config.{GestaltSettings}
use gestalt_agentic_software.Tools.Fields.{model, long_text, Coercions, flag_field, and_then}
use gestalt_agentic_software.Prelude.{
  Option, String, Bool, List, ◌+++◌, some, ◌∷◌, [], if◌then◌else◌, is_blank, codes, false, str_len,
  true,
}
use gestalt_agentic_software.BaseAgent.Services
use gestalt_agentic_software.Python.Dict
use gestalt_agentic_software.Python.Dict.{Dict, string_key}

pub record PlannerReasoning : Type 0 where
  pub execution_summary : String
  pub next_step_needed : Bool

unfoldable pub planner_reasoning : Coercions → Metadata → Result PlannerReasoning
unfolding model long_text flag_field
planner_reasoning c payload = model ("execution_summary" ∷ "next_step_needed" ∷ []) payload (
    and_then (long_text payload "execution_summary" 16) λ s.
      and_then (flag_field c payload "next_step_needed")
        λ n. ok (record { execution_summary = s; next_step_needed = n }))

-- The command of a payload, if it is a text that is not blank.
unfoldable pub candidate_command : Option Value → String → String
candidate_command (some (str s)) default = if is_blank (codes s) then default else s
candidate_command _ default = default

-- The command that the first inbound command asks for.
unfoldable pub command_text : String → List GestaltCommand → String
unfolding candidate_command
command_text default [] = default
command_text default (inbound ∷ _) = candidate_command (Dict.get inbound.payload "command") default

abbrev pub default_command : String → String
default_command objective = "echo 'gestalt planner executed objective: " +++ objective +++ "'"

module _ (host : Host) where
  unfoldable pub follow_up : GestaltGraphState → Bool → String → Exec Session (List GestaltCommand)
  follow_up state false stdout = pure []
  follow_up state true stdout = do
    command ←
        make_command host state.trace_id GestaltCommandType.analyze "planner_executor" "analyzer"
          "Execution indicated an additional analysis pass is required."
          (("stdout", str stdout) ∷ [])
    pure (command ∷ [])

module _ (settings : GestaltSettings) (host : Host) (coercions : Coercions)
    (tools : ToolRegistry World ToolInput ToolOutput) where
  unfoldable pub planner_artifacts :
      AgentContextEnvelope → GestaltGraphState → Exec Session AgentArtifacts
  planner_artifacts context state = do
    result ←
        Services.run_sandbox_command settings host "planner_executor" tools state
          (command_text (default_command context.objective) context.inbound_commands) "." 15
    reasoning ←
        Services.complete_structured settings host "planner_executor" (planner_reasoning coercions)
          planner_executor_prompt ("Execute objective: " +++ context.objective) state.stats
          ((
            "execution_summary",
            str (
                "Planner executed a bounded sandbox command with return code "
                +++ host.int_text result.return_code
                +++ " and captured "
                +++ host.int_text (pos (str_len result.stdout))
                +++ " bytes of stdout."),
          )
            ∷ ("next_step_needed", bool false)
            ∷ [])
    memory ←
        make_memory host state.trace_id MemoryKind.execution "Planner execution result"
          reasoning.execution_summary
          ("execution" ∷ "planner" ∷ host.int_text result.return_code ∷ [])
          (("return_code", int result.return_code)
            ∷ ("stdout", str (strip result.stdout))
            ∷ ("stderr", str (strip result.stderr))
            ∷ [])
    commands ← follow_up host state reasoning.next_step_needed result.stdout
    lift (
        check_artifacts (record (summary_only reasoning.execution_summary) {
          commands = commands;
          memories = memory ∷ [];
          metrics = ("return_code", host.floats.of_int result.return_code) ∷ [];
        }))

  unfoldable pub planner_executor_agent : Agent
  unfolding planner_artifacts
  planner_executor_agent = record {
    agent_name = "planner_executor";
    system_prompt = planner_executor_prompt;
    produce_artifacts = λ context messages state. planner_artifacts context state;
  }
