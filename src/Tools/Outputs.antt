-- ===== src/Tools/Outputs.antt =====
-- gestalt/tools/implementations: the input and the output models of the eight tools.
use gestalt_agentic_software.Python.Values.{Float}
use gestalt_agentic_software.Protocol.Models.{
  BlackboardMemoryRecord, BlackboardQueryResult, Metadata, Datetime,
}
use gestalt_agentic_software.Prelude.Int.{ℤ}
use gestalt_agentic_software.Prelude.{String, Bool, List, Option}
use gestalt_agentic_software.Python.Dict.{Dict, string_key}

pub record BlackboardQueryInput : Type 0 where
  pub query : String
  pub limit : ℤ
  pub filters : Metadata

pub record PrometheusQueryOutput : Type 0 where
  pub query : String
  pub value : Float
  pub sampled_at : Datetime

pub record HttpRequestInput : Type 0 where
  pub method : String
  pub url : String
  pub headers : Dict String String
  pub params : Dict String String
  pub json_body : Option Metadata
  pub timeout_seconds : ℤ

pub record HttpRequestOutput : Type 0 where
  pub status_code : ℤ
  pub headers : Dict String String
  pub text : String

pub record SandboxCommandInput : Type 0 where
  pub command : String
  pub working_directory : String
  pub timeout_seconds : ℤ

pub record SandboxCommandOutput : Type 0 where
  pub stdout : String
  pub stderr : String
  pub return_code : ℤ

pub record RedisInspectInput : Type 0 where
  pub stream_name : String
  pub count : ℤ

pub record RedisInspectOutput : Type 0 where
  pub stream_name : String
  pub count : ℤ
  pub entries : List (Dict String String)

pub record KubernetesReadInput : Type 0 where
  pub namespace : String
  pub kind : String
  pub name : String

-- `status` is always "mocked".
pub record KubernetesReadOutput : Type 0 where
  pub namespace : String
  pub kind : String
  pub name : String
  pub status : String
  pub details : Dict String String

pub record KubernetesPatchInput : Type 0 where
  pub namespace : String
  pub kind : String
  pub name : String
  pub patch : Dict String String

pub record KubernetesPatchOutput : Type 0 where
  pub namespace : String
  pub kind : String
  pub name : String
  pub applied : Bool
  pub patch_summary : Dict String String

-- The input of a tool, and the output: an object of one of the models. The inputs of
-- `blackboard_write` and `prometheus_query`, and the outputs of the two blackboard tools, have one
-- field, which stands for them.
pub data ToolInput : Type 0 where
  blackboard_query : BlackboardQueryInput → ToolInput
  blackboard_write : BlackboardMemoryRecord → ToolInput
  prometheus_query : String → ToolInput
  http_request : HttpRequestInput → ToolInput
  sandbox_command : SandboxCommandInput → ToolInput
  redis_stream_inspect : RedisInspectInput → ToolInput
  kubernetes_read : KubernetesReadInput → ToolInput
  kubernetes_patch : KubernetesPatchInput → ToolInput

pub data ToolOutput : Type 0 where
  queried : BlackboardQueryResult → ToolOutput
  written : BlackboardMemoryRecord → ToolOutput
  measured : PrometheusQueryOutput → ToolOutput
  responded : HttpRequestOutput → ToolOutput
  executed : SandboxCommandOutput → ToolOutput
  inspected : RedisInspectOutput → ToolOutput
  kubernetes_state : KubernetesReadOutput → ToolOutput
  kubernetes_patched : KubernetesPatchOutput → ToolOutput
