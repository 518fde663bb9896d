-- ===== src/Tools/Base.antt =====
-- gestalt/tools/base.py. A tool acts on the objects `S` that it reaches. Its input model is the
-- validator of a payload, which gives the input `I` that the tool reads; its output is a `T`.
use gestalt_agentic_software.Protocol.Validation.{min_length}
use gestalt_agentic_software.Prelude.Int.{ℤ, leb_ℤ, pos}
use gestalt_agentic_software.Protocol.Enums.{ToolExecutionMode}
use gestalt_agentic_software.Protocol.Models.{Metadata}
use gestalt_agentic_software.Python.Exec.{Exec, Result, validated, ◌>>=◌, lift}
use gestalt_agentic_software.Prelude.{String, Bool, ◌&&◌}

pub record ToolContext : Type 0 where
  pub trace_id : String
  pub agent_name : String
  pub metadata : Metadata

pub record ToolDescriptor : Type 0 where
  pub name : String
  pub description : String
  pub execution_mode : ToolExecutionMode
  pub timeout_seconds : ℤ
  pub retries : ℤ
  pub requires_approval : Bool

unfoldable pub check_descriptor : ToolDescriptor → Result ToolDescriptor
check_descriptor d =
    validated
      (min_length 2 d.name
        && min_length 8 d.description
        && leb_ℤ (pos 1) d.timeout_seconds
        && leb_ℤ d.timeout_seconds (pos 600)
        && leb_ℤ (pos 0) d.retries
        && leb_ℤ d.retries (pos 5))
      d

pub record ToolExecutionRequest : Type 0 where
  pub trace_id : String
  pub agent_name : String
  pub payload : Metadata
  pub metadata : Metadata

unfoldable pub context : ToolExecutionRequest → ToolContext
context r = record { trace_id = r.trace_id; agent_name = r.agent_name; metadata = r.metadata }

pub record BaseGestaltTool (S I T : Type 0) : Type 0 where
  pub descriptor : ToolDescriptor
  pub validate_input : Metadata → Result I
  pub arun : I → ToolContext → Exec S T

module _ {S I T : Type 0} where
  abbrev pub tool_name : BaseGestaltTool S I T → String
  tool_name tool = tool.descriptor.name

  unfoldable pub execute : BaseGestaltTool S I T → ToolExecutionRequest → Exec S T
  unfolding context
  execute tool request = do
    payload ← lift (tool.validate_input request.payload)
    tool.arun payload (context request)
