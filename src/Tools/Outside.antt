-- ===== src/Tools/Outside.antt =====
-- What the tools of gestalt/tools/implementations use of the libraries and of the system: pydantic's
-- coercions, the HTTP client's answer to the n-th call that leaves the program, `Path.resolve`, and
-- what the n-th call, a shell, comes back with.
use gestalt_agentic_software.Python.Exec.{Result, Exec}
use gestalt_agentic_software.Tools.Outputs.{
  HttpRequestInput, HttpRequestOutput, SandboxCommandInput,
}
use gestalt_agentic_software.Prelude.Int.{ℤ}
use gestalt_agentic_software.Runtime.{OutsideCall, World}
use gestalt_agentic_software.Tools.Fields.{Coercions}
use gestalt_agentic_software.Prelude.{String, Option, ℕ, length, ◌++◌, ◌∷◌, []}

pub record ProcessOutput : Type 0 where
  pub stdout : String
  pub stderr : String
  pub returncode : Option ℤ

-- `resolve root path` is `str((Path(root) / path).resolve())`.
pub record Outside : Type 0 where
  pub coercions : Coercions
  pub upper : String → String
  pub respond : ℕ → HttpRequestInput → Result HttpRequestOutput
  pub resolve : String → String → String
  pub communicate : ℕ → SandboxCommandInput → Result ProcessOutput

-- The call goes out, and comes back with a result or an exception.
unfoldable pub call_outside : {A : Type 0} → OutsideCall → (ℕ → Result A) → Exec World A
call_outside call answer w =
    (answer (length w.outside), record w { outside = w.outside ++ call ∷ [] })
