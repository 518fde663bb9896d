-- ===== src/Agents/Knowledge.antt =====
-- gestalt/agents/knowledge.py
use gestalt_agentic_software.Protocol.Enums.{MemoryKind}
use gestalt_agentic_software.Protocol.Reports.{AgentContextEnvelope, GestaltGraphState}
use gestalt_agentic_software.Agents.Prompts.{knowledge_prompt}
use gestalt_agentic_software.Blackboard.{link_entities}
use gestalt_agentic_software.BaseAgent.Artifacts.{
  Agent, check_artifacts, AgentArtifacts, summary_only,
}
use gestalt_agentic_software.BaseAgent.Make.{make_memory}
use gestalt_agentic_software.Protocol.Constraints.{check_relation}
use gestalt_agentic_software.Tools.Outputs.{ToolInput, ToolOutput}
use gestalt_agentic_software.Python.Exec.{Result, Exec, pure, ◌>>=◌, lift, modify, ◌>>◌}
use gestalt_agentic_software.Tools.Registry.{ToolRegistry}
use gestalt_agentic_software.Python.Values.{Values, nil, cons, str, array}
use gestalt_agentic_software.Protocol.Models.{Metadata, BlackboardMemoryRecord, BlackboardRelation}
use gestalt_agentic_software.Runtime.{Host, World, Session}
use gestalt_agentic_software.Config.{GestaltSettings}
use gestalt_agentic_software.Prelude.{List, String, ◌∷◌, join, [], map, ◌+++◌}
use gestalt_agentic_software.Tools.Fields.{model, long_text}
use gestalt_agentic_software.BaseAgent.Services
use gestalt_agentic_software.Runtime

-- KnowledgeReasoning, whose one field is its summary
unfoldable pub knowledge_reasoning : Metadata → Result String
unfolding model long_text
knowledge_reasoning payload = model ("summary" ∷ []) payload (long_text payload "summary" 16)

-- ', '.join(titles) if titles else …
unfoldable pub titles_text : List String → String
titles_text [] = "current cycle evidence only"
titles_text (t ∷ ts) = join ", " (t ∷ ts)

abbrev pub text_values : List String → Values
text_values [] = nil
text_values (s ∷ ss) = cons (str s) (text_values ss)

module _ (host : Host) where
  -- BlackboardRelation(…), from a match to the new memory
  unfoldable pub make_relation :
      BlackboardMemoryRecord → BlackboardMemoryRecord → Exec Session BlackboardRelation
  unfolding check_relation Runtime.new_uuid
  make_relation found memory = do
    id ← Runtime.on_world Runtime.new_uuid
    lift (
        check_relation (record {
          relation_id = id;
          source_type = "memory";
          source_id = host.uuid_text found.record_id;
          relation_type = "CURATED_INTO";
          target_type = "memory";
          target_id = host.uuid_text memory.record_id;
          metadata = [];
        }))

  -- The first match is linked.
  unfoldable pub link_first :
      List BlackboardMemoryRecord → BlackboardMemoryRecord → Exec Session (Unit {0})
  link_first [] memory = pure tt
  link_first (found ∷ _) memory = do
    relation ← make_relation found memory
    Runtime.on_board (modify (link_entities (relation ∷ [])))

module _ (settings : GestaltSettings) (host : Host)
    (tools : ToolRegistry World ToolInput ToolOutput) where
  unfoldable pub knowledge_artifacts :
      AgentContextEnvelope → GestaltGraphState → Exec Session AgentArtifacts
  knowledge_artifacts context state = do
    result ← Services.query_blackboard settings host "knowledge" tools state context.objective 5 []
    let titles = map (λ (r : BlackboardMemoryRecord). r.title) result.matches
    summary ←
        Services.complete_structured settings host "knowledge" knowledge_reasoning knowledge_prompt
          ("Curate knowledge for objective: " +++ context.objective) state.stats
          ((
            "summary",
            str (
                "Knowledge agent summarized the most relevant memories into a reusable artifact "
                +++ "spanning: "
                +++ titles_text titles
                +++ "."),
          )
            ∷ [])
    memory ←
        make_memory host state.trace_id MemoryKind.knowledge "Curated Gestalt knowledge artifact"
          summary ("knowledge" ∷ "curation" ∷ [])
          (("source_titles", array (text_values titles)) ∷ [])
    link_first host result.matches memory
    lift (check_artifacts (record (summary_only summary) { memories = memory ∷ [] }))

  unfoldable pub knowledge_agent : Agent
  unfolding knowledge_artifacts
  knowledge_agent = record {
    agent_name = "knowledge";
    system_prompt = knowledge_prompt;
    produce_artifacts = λ context messages state. knowledge_artifacts context state;
  }
