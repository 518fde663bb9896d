-- ===== src/Tools/Implementations/Sandbox.antt =====
-- gestalt/tools/implementations/sandbox.py. The shell is a parameter.
-- self._blocked_terms; the order of the set shows only in the message of the exception.
use gestalt_agentic_software.Protocol.Enums.{ToolExecutionMode}
use gestalt_agentic_software.Protocol.Models.{Metadata}
use gestalt_agentic_software.Runtime.{World, process}
use gestalt_agentic_software.Python.Exec.{
  Exec, ◌>>=◌, Result, raise, permission_error, pure, ok, attribute_error,
}
use gestalt_agentic_software.Tools.Base.{BaseGestaltTool, ToolContext}
use gestalt_agentic_software.Tools.Outputs.{SandboxCommandInput, ToolInput, ToolOutput, executed}
use gestalt_agentic_software.Tools.Fields.{model, some_text, text_field, int_field, and_then}
use gestalt_agentic_software.Prelude.Int.{ℤ, pos}
use gestalt_agentic_software.Tools.Outside.{Outside, call_outside}
use gestalt_agentic_software.Prelude.{
  List, Option, String, ℕ, none, ◌∷◌, [], if◌then◌else◌, some, contains, codes, lower, false, ◌+++◌,
  starts_with,
}

abbrev pub blocked_terms : List String
blocked_terms = "rm -rf /" ∷ "shutdown" ∷ "reboot" ∷ "mkfs" ∷ ":(){:|:&};:" ∷ []

-- The first blocked term that the command contains.
unfoldable pub blocked_in : List ℕ → List String → Option String
blocked_in lowered [] = none
blocked_in lowered (term ∷ terms) =
    let rest = blocked_in lowered terms in if contains lowered (codes term) then some term else rest

-- process.returncode or 0
abbrev pub code_or_zero : Option ℤ → ℤ
code_or_zero none = pos 0
code_or_zero (some z) = z

module _ (outside : Outside) where
  unfoldable pub validate_sandbox : Metadata → Result ToolInput
  unfolding model some_text text_field int_field
  validate_sandbox payload =
      model ("command" ∷ "working_directory" ∷ "timeout_seconds" ∷ []) payload (
        and_then (some_text payload "command") λ c.
          and_then (text_field payload "working_directory" (some ".")) λ d.
            and_then
              (int_field outside.coercions payload "timeout_seconds" (pos 30) (pos 1) (pos 300))
              λ t. ok (
                ToolInput.sandbox_command
                  (record { command = c; working_directory = d; timeout_seconds = t })))

  unfoldable pub start_process : SandboxCommandInput → String → Exec World ToolOutput
  unfolding call_outside
  start_process input directory = do
    output ← call_outside (process input.command directory) (λ n. outside.communicate n input)
    pure (
        executed (record {
          stdout = output.stdout;
          stderr = output.stderr;
          return_code = code_or_zero output.returncode;
        }))

  -- `root` is the text of `self._workspace_root`.
  unfoldable pub run_sandbox : String → ToolInput → ToolContext → Exec World ToolOutput
  unfolding blocked_in start_process
  run_sandbox root (ToolInput.sandbox_command input) context =
      elim (blocked_in (lower input.command) blocked_terms) [
        | some term ↦ raise permission_error ("Blocked sandbox command pattern detected: " +++ term)
        | none ↦
            let directory = outside.resolve root input.working_directory in
            if starts_with (codes directory) (codes root)
            then start_process input directory
            else raise permission_error "Sandbox working directory escapes workspace root."
      ]
  run_sandbox root _ context = raise attribute_error "command"

  -- SandboxCommandTool(workspace_root=…)
  unfoldable pub sandbox_command_tool : String → BaseGestaltTool World ToolInput ToolOutput
  unfolding validate_sandbox run_sandbox
  sandbox_command_tool workspace_root = record {
    descriptor = record {
      name = "sandbox_command";
      description = "Execute a constrained shell command for planner-executor workflows.";
      execution_mode = ToolExecutionMode.sandboxed;
      timeout_seconds = pos 30;
      retries = pos 0;
      requires_approval = false;
    };
    validate_input = validate_sandbox;
    arun = run_sandbox (outside.resolve "" workspace_root);
  }
