-- ===== src/Agents/Analyzer.antt =====
-- gestalt/agents/analyzer.py
use gestalt_agentic_software.Prelude.Strip.{first_chars}
use gestalt_agentic_software.Agents.Prompts.{analyzer_prompt}
use gestalt_agentic_software.BaseAgent.Artifacts.{
  Agent, check_artifacts, AgentArtifacts, summary_only,
}
use gestalt_agentic_software.BaseAgent.Make.{make_command, make_memory}
use gestalt_agentic_software.Python.Values.{Float, str, bool, Value, int}
use gestalt_agentic_software.Tools.Outputs.{ToolInput, ToolOutput}
use gestalt_agentic_software.Python.Exec.{Result, ok, Exec, ◌>>=◌, lift}
use gestalt_agentic_software.Tools.Registry.{ToolRegistry}
use gestalt_agentic_software.Prelude.Int.{leb_ℤ, pos}
use gestalt_agentic_software.Runtime.{Host, World, Session}
use gestalt_agentic_software.Protocol.Enums.{GestaltCommandType, MemoryKind}
use gestalt_agentic_software.Protocol.Reports.{GestaltGraphState, AgentContextEnvelope}
use gestalt_agentic_software.Protocol.Models.{BlackboardMemoryRecord, Metadata}
use gestalt_agentic_software.Config.{GestaltSettings}
use gestalt_agentic_software.Tools.Fields.{model, long_text, Coercions, flag_field, and_then}
use gestalt_agentic_software.Prelude.{
  Bool, List, String, ℕ, if◌then◌else◌, ◌∷◌, [], contains, str_eq, codes, ◌+++◌, lower, length,
}
use gestalt_agentic_software.BaseAgent.Services

pub record AnalyzerReasoning : Type 0 where
  pub diagnosis : String
  pub recommended_target : String
  pub requires_security_audit : Bool

unfoldable pub analyzer_reasoning : Coercions → Metadata → Result AnalyzerReasoning
unfolding model long_text flag_field
analyzer_reasoning c payload =
    model ("diagnosis" ∷ "recommended_target" ∷ "requires_security_audit" ∷ []) payload (
      and_then (long_text payload "diagnosis" 16) λ d.
        and_then (long_text payload "recommended_target" 3) λ t.
          and_then (flag_field c payload "requires_security_audit")
            λ r. ok (record { diagnosis = d; recommended_target = t; requires_security_audit = r }))

-- The content of the first match.
unfoldable pub top_match : List BlackboardMemoryRecord → String
top_match [] = "No prior memory matched."
top_match (r ∷ _) = r.content

-- state.stats.security_risk_score >= self.settings.audit.hallucination_score_threshold
unfoldable pub requires_security : GestaltSettings → GestaltGraphState → Bool
requires_security settings state =
    leb_ℤ (pos settings.audit.hallucination_score_threshold) state.stats.security_risk_score

-- The target before the model is asked: the later assignments override the earlier ones.
unfoldable pub initial_target : Bool → List ℕ → String
initial_target security objective =
    if security
    then "security_audit"
    else if contains objective (codes "knowledge")
    then "knowledge"
    else if contains objective (codes "optimiz")
    then "optimizer"
    else "planner_executor"

unfoldable pub command_type_for : String → GestaltCommandType
command_type_for target =
    if str_eq target "security_audit"
    then GestaltCommandType.audit
    else if str_eq target "optimizer"
    then GestaltCommandType.optimize
    else GestaltCommandType.execute

module _ (settings : GestaltSettings) (host : Host) (coercions : Coercions)
    (tools : ToolRegistry World ToolInput ToolOutput) where
  abbrev pub analyzer_payload : GestaltGraphState → String → String → Float → Metadata
  analyzer_payload state objective content latency =
      let security = requires_security settings state in
      (
        "diagnosis",
        str (
            "Analyzer correlated the objective with blackboard memory '"
            +++ first_chars 120 content
            +++ "' and observed latency around "
            +++ host.fixed_text latency
            +++ "ms."),
      )
      ∷ ("recommended_target", str (initial_target security (lower objective)))
      ∷ ("requires_security_audit", bool security)
      ∷ []

  unfoldable pub analyzer_artifacts :
      AgentContextEnvelope → GestaltGraphState → Exec Session AgentArtifacts
  analyzer_artifacts context state = do
    found ← Services.query_blackboard settings host "analyzer" tools state context.objective 5 []
    latency ← Services.query_prometheus settings host "analyzer" tools state "latency_p95_ms"
    reasoning ←
        Services.complete_structured settings host "analyzer" (analyzer_reasoning coercions)
          analyzer_prompt ("Analyze objective: " +++ context.objective) state.stats
          (analyzer_payload state context.objective (top_match found.matches) latency.value)
    command ←
        make_command host state.trace_id (command_type_for reasoning.recommended_target) "analyzer"
          reasoning.recommended_target
          "Analyzer generated the next best operational step from correlated evidence."
          (("diagnosis", str reasoning.diagnosis)
            ∷ ("latency_p95_ms", Value.float latency.value)
            ∷ [])
    memory ←
        make_memory host state.trace_id MemoryKind.fact "Analyzer diagnosis" reasoning.diagnosis
          ("analysis" ∷ reasoning.recommended_target ∷ [])
          (("matched_records", int (pos (length found.matches))) ∷ [])
    lift (
        check_artifacts (record (summary_only reasoning.diagnosis) {
          commands = command ∷ [];
          memories = memory ∷ [];
          metrics = ("latency_p95_ms", latency.value) ∷ [];
        }))

  unfoldable pub analyzer_agent : Agent
  unfolding analyzer_artifacts
  analyzer_agent = record {
    agent_name = "analyzer";
    system_prompt = analyzer_prompt;
    produce_artifacts = λ context messages state. analyzer_artifacts context state;
  }
