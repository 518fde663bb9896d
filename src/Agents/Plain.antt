-- ===== src/Agents/Plain.antt =====
-- Four of the specialists change the services in the way of their tools, and give artifacts with no
-- statistics and no metadata.
use gestalt_agentic_software.Runtime
use gestalt_agentic_software.Blackboard.{link_entities}
use gestalt_agentic_software.Protocol.Models.{BlackboardMemoryRecord}
use gestalt_agentic_software.Agents.Knowledge.{knowledge_artifacts, link_first, make_relation}
use gestalt_agentic_software.Agents.Optimizer.{optimizer_artifacts, make_proposal}
use gestalt_agentic_software.Agents.PlannerExecutor.{follow_up, planner_artifacts}
use gestalt_agentic_software.BaseAgent.ServicesRun.{
  query_blackboard-Runs, query_prometheus-Runs, complete_structured-Runs, make_command-Runs,
  make_memory-Runs, run_sandbox_command-Runs,
}
use gestalt_agentic_software.Agents.Analyzer.{analyzer_artifacts}
use gestalt_agentic_software.Protocol.Reports.{AgentContextEnvelope, GestaltGraphState}
use gestalt_agentic_software.Tools.Effects.{AreTame}
use gestalt_agentic_software.Python.Exec.{lift, ok, modify}
use gestalt_agentic_software.Graph.Specialist.{IsPlain}
use gestalt_agentic_software.Tools.Outputs.{ToolInput, ToolOutput}
use gestalt_agentic_software.BaseAgent.Behaves.{
  Behaves, then-Behaves, validated-ok, lift-Behaves, Runs, pure-Runs, on_board-Runs, IsStep,
}
use gestalt_agentic_software.Tools.Registry.{ToolRegistry}
use gestalt_agentic_software.Tools.Fields.{Coercions}
use gestalt_agentic_software.Prelude.{
  ◌≡◌, [], none, refl, Bool, List, String, arith, ◌∷◌, false, true,
}
use gestalt_agentic_software.Runtime.{Host, World}
use gestalt_agentic_software.Config.{GestaltSettings}
use gestalt_agentic_software.BaseAgent.Artifacts.{check_artifacts, AgentArtifacts}
use mathlib.Core.Path.{subst}

module _ {R : World → World → Type 0} (laws : IsStep R) where
  -- Artifacts with no report on statistics.
  pub checked-Behaves :
      (a : AgentArtifacts)
      → a.metadata_updates ≡ []
      → a.stats_report ≡ none
      → Behaves R IsPlain (lift (check_artifacts a))
  unfolding check_artifacts
  checked-Behaves a metadata report = lift-Behaves laws IsPlain (check_artifacts a) given
    where
      given : (b : AgentArtifacts) → check_artifacts a ≡ ok b → IsPlain b
      given b e =
          subst IsPlain (validated-ok _ a b e).1
            (record { no_metadata = metadata; risk = λ r q. cc })

  module _ (settings : GestaltSettings) (host : Host) (coercions : Coercions)
      (tools : ToolRegistry World ToolInput ToolOutput) (tame : AreTame R tools)
      (context : AgentContextEnvelope) (state : GestaltGraphState) where
    pub analyzer-Behaves :
        Behaves R IsPlain (analyzer_artifacts settings host coercions tools context state)
    unfolding analyzer_artifacts
    analyzer-Behaves =
        then-Behaves laws IsPlain _ _
          (query_blackboard-Runs laws settings host "analyzer" tools tame state _ 5 [])
          λ found.
            then-Behaves laws IsPlain _ _
              (query_prometheus-Runs laws settings host "analyzer" tools tame state _)
              λ latency.
                then-Behaves laws IsPlain _ _
                  (complete_structured-Runs laws settings host "analyzer" _ _ _ _ _)
                  λ reasoning.
                    then-Behaves laws IsPlain _ _
                      (make_command-Runs laws host state.trace_id _ _ _ _ _)
                      λ command.
                        then-Behaves laws IsPlain _ _
                          (make_memory-Runs laws host state.trace_id _ _ _ _ _)
                          λ memory. checked-Behaves _ refl refl

    follow_up-Runs : (needed : Bool) (stdout : String) → Runs R (follow_up host state needed stdout)
    unfolding follow_up
    follow_up-Runs false stdout = pure-Runs laws []
    follow_up-Runs true stdout =
        then-Behaves laws _ _ _ (make_command-Runs laws host state.trace_id _ _ _ _ _)
          λ c. pure-Runs laws (c ∷ [])

    pub planner_executor-Behaves :
        Behaves R IsPlain (planner_artifacts settings host coercions tools context state)
    unfolding planner_artifacts
    planner_executor-Behaves =
        then-Behaves laws IsPlain _ _
          (run_sandbox_command-Runs laws settings host "planner_executor" tools tame state _ _ _)
          λ result.
            then-Behaves laws IsPlain _ _
              (complete_structured-Runs laws settings host "planner_executor" _ _ _ _ _)
              λ reasoning.
                then-Behaves laws IsPlain _ _ (make_memory-Runs laws host state.trace_id _ _ _ _ _)
                  λ memory.
                    then-Behaves laws IsPlain _ _ (follow_up-Runs _ _)
                      λ commands. checked-Behaves _ refl refl

    pub optimizer-Behaves :
        Behaves R IsPlain (optimizer_artifacts settings host tools context state)
    unfolding optimizer_artifacts
    optimizer-Behaves =
        then-Behaves laws IsPlain _ _
          (query_blackboard-Runs laws settings host "optimizer" tools tame state _ 3 [])
          λ history.
            then-Behaves laws IsPlain _ _
              (query_prometheus-Runs laws settings host "optimizer" tools tame state _)
              λ latency.
                then-Behaves laws IsPlain _ _
                  (complete_structured-Runs laws settings host "optimizer" _ _ _ _ _)
                  λ reasoning. then-Behaves laws IsPlain _ _ (make_proposal-Runs _ _) λ proposal.
                    then-Behaves laws IsPlain _ _
                      (make_memory-Runs laws host state.trace_id _ _ _ _ _)
                      λ memory. checked-Behaves _ refl refl
      where
        make_proposal-Runs :
            (summary route : String) → Runs R (make_proposal host state summary route)
        make_proposal-Runs summary route =
            unfold make_proposal in
            record {
              goes =
                  λ s. laws.quiet s.world _ (record { later = omega arith; memory = λ m. m }) refl;
              gives = λ s b e. tt;
            }

    make_relation-Runs :
        (found memory : BlackboardMemoryRecord) → Runs R (make_relation host found memory)
    unfolding make_relation Runtime.new_uuid
    make_relation-Runs found memory = record {
      goes = λ s. laws.quiet s.world _ (record { later = omega arith; memory = λ m. m }) refl;
      gives = λ s b e. tt;
    }

    link_first-Runs :
        (found : List BlackboardMemoryRecord) (memory : BlackboardMemoryRecord)
        → Runs R (link_first host found memory)
    unfolding link_first
    link_first-Runs [] memory = pure-Runs laws tt
    link_first-Runs (r ∷ rs) memory =
        then-Behaves laws _ _ _ (make_relation-Runs r memory)
          λ relation. on_board-Runs laws (modify (link_entities (relation ∷ [])))

    pub knowledge-Behaves :
        Behaves R IsPlain (knowledge_artifacts settings host tools context state)
    unfolding knowledge_artifacts
    knowledge-Behaves =
        then-Behaves laws IsPlain _ _
          (query_blackboard-Runs laws settings host "knowledge" tools tame state _ 5 [])
          λ found.
            then-Behaves laws IsPlain _ _
              (complete_structured-Runs laws settings host "knowledge" _ _ _ _ _)
              λ summary.
                then-Behaves laws IsPlain _ _ (make_memory-Runs laws host state.trace_id _ _ _ _ _)
                  λ memory.
                    then-Behaves laws IsPlain _ _ (link_first-Runs _ _)
                      λ _. checked-Behaves _ refl refl
