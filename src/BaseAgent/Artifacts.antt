-- ===== src/BaseAgent/Artifacts.antt =====
-- gestalt/base_agent.py: what an agent is, and what its `produce_artifacts` gives.
use gestalt_agentic_software.Python.Values.{Float}
use gestalt_agentic_software.Protocol.Enums.{AgentDecision}
use gestalt_agentic_software.Protocol.Validation.{min_length}
use gestalt_agentic_software.Protocol.Models.{
  GestaltCommand, BlackboardMemoryRecord, GestaltMessage, GestaltSummary, Metadata,
}
use gestalt_agentic_software.Protocol.Reports.{
  GestaltGraphState, AgentContextEnvelope, GestaltStatsReport, GestaltAuditReport,
  OptimizationProposal,
}
use gestalt_agentic_software.Python.Exec.{Result, Exec, validated}
use gestalt_agentic_software.Prelude.{Option, String, List, [], none}
use gestalt_agentic_software.Python.Dict.{Dict, string_key}
use gestalt_agentic_software.Runtime.{Session}

pub record AgentArtifacts : Type 0 where
  pub summary : String
  pub commands : List GestaltCommand
  pub memories : List BlackboardMemoryRecord
  pub messages : List GestaltMessage
  pub stats_report : Option GestaltStatsReport
  pub audit_report : Option GestaltAuditReport
  pub latest_summary : Option GestaltSummary
  pub optimization_proposals : List OptimizationProposal
  pub decisions : List AgentDecision
  pub metadata_updates : Metadata
  pub metrics : Dict String Float

unfoldable pub check_artifacts : AgentArtifacts → Result AgentArtifacts
check_artifacts a = validated (min_length 8 a.summary) a

-- AgentArtifacts(summary=…), with the defaults for the rest
abbrev pub summary_only : String → AgentArtifacts
summary_only summary = record {
  summary = summary;
  commands = [];
  memories = [];
  messages = [];
  stats_report = none;
  audit_report = none;
  latest_summary = none;
  optimization_proposals = [];
  decisions = [];
  metadata_updates = [];
  metrics = [];
}

pub record Agent : Type 0 where
  pub agent_name : String
  pub system_prompt : String
  pub produce_artifacts :
      AgentContextEnvelope → List GestaltMessage → GestaltGraphState → Exec Session AgentArtifacts
