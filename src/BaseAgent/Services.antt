-- ===== src/BaseAgent/Services.antt =====
-- gestalt/base_agent.py: an agent's calls of the tools by their names, and of the language model.
use gestalt_agentic_software.Stats.Model.{GestaltStats}
use gestalt_agentic_software.Gateway
use gestalt_agentic_software.Prelude.Int.{pos}
use gestalt_agentic_software.Protocol.Reports.{GestaltGraphState}
use gestalt_agentic_software.Tools.Registry.{ToolRegistry, execute_tool}
use gestalt_agentic_software.Gateway.{preference_text}
use gestalt_agentic_software.Runtime.{Host, World, Session}
use gestalt_agentic_software.Python.Values.{Value, null, object, str, int, fields_of}
use gestalt_agentic_software.Config.{GestaltSettings}
use gestalt_agentic_software.Prelude.{Option, String, map, none, some, ℕ, ◌∷◌, []}
use gestalt_agentic_software.Protocol.Models.{Metadata, BlackboardQueryResult}
use gestalt_agentic_software.Tools.Outputs.{
  ToolOutput, HttpRequestOutput, KubernetesPatchOutput, KubernetesReadOutput, PrometheusQueryOutput,
  RedisInspectOutput, SandboxCommandOutput, executed, inspected, kubernetes_patched,
  kubernetes_state, measured, queried, responded, ToolInput, HttpRequestInput,
}
use gestalt_agentic_software.Python.Exec.{
  Result, raise_with, attribute_error, ok, key_error, Exec, ◌>>=◌, lift, quoted,
}
use gestalt_agentic_software.Runtime
use gestalt_agentic_software.Python.Dict
use gestalt_agentic_software.Python.Dict.{Dict, string_key}

-- What the typed attribute of an output is, where the object is of another model.
abbrev wrong_output : {A : Type 0} → Result A
wrong_output = raise_with attribute_error "object has no such attribute"

unfoldable pub queried_of : ToolOutput → Result BlackboardQueryResult
queried_of (queried r) = ok r
queried_of _ = wrong_output

unfoldable pub measured_of : ToolOutput → Result PrometheusQueryOutput
measured_of (measured o) = ok o
measured_of _ = wrong_output

unfoldable pub executed_of : ToolOutput → Result SandboxCommandOutput
executed_of (executed o) = ok o
executed_of _ = wrong_output

unfoldable pub inspected_of : ToolOutput → Result RedisInspectOutput
inspected_of (inspected o) = ok o
inspected_of _ = wrong_output

unfoldable pub responded_of : ToolOutput → Result HttpRequestOutput
responded_of (responded o) = ok o
responded_of _ = wrong_output

unfoldable pub state_of : ToolOutput → Result KubernetesReadOutput
state_of (kubernetes_state o) = ok o
state_of _ = wrong_output

unfoldable pub patched_of : ToolOutput → Result KubernetesPatchOutput
patched_of (kubernetes_patched o) = ok o
patched_of _ = wrong_output

abbrev texts_object : Dict String String → Value
texts_object d = object (fields_of (map (λ (entry : String × String). (entry.0, str entry.1)) d))

abbrev object_or_null : Option Metadata → Value
object_or_null none = null
object_or_null (some d) = object (fields_of d)

module _ (settings : GestaltSettings) (host : Host) (caller : String) where
  -- self.settings.agents[self.agent_name].model_preference
  unfoldable pub model_preference : Result String
  unfolding preference_text
  model_preference = elim (Dict.get settings.agents caller) [
    | none ↦ raise_with key_error (quoted caller)
    | some policy ↦ ok (preference_text policy.model_preference)
  ]

  module _ {A : Type 0} (validate : Metadata → Result A) where
    unfoldable pub complete_structured : String → String → GestaltStats → Metadata → Exec Session A
    unfolding model_preference Gateway.complete_structured
    complete_structured system_prompt user_prompt stats mock_payload = do
      tier ← lift model_preference
      Runtime.on_world (
          Gateway.complete_structured validate host settings.models system_prompt user_prompt stats
            (some tier) (some mock_payload))

  module _ (tools : ToolRegistry World ToolInput ToolOutput) (state : GestaltGraphState) where
    unfoldable pub call_tool : String → Metadata → Exec Session ToolOutput
    unfolding execute_tool
    call_tool name payload =
        Runtime.on_world (execute_tool settings host caller tools name payload state)

    unfoldable pub query_blackboard : String → ℕ → Metadata → Exec Session BlackboardQueryResult
    unfolding call_tool queried_of fields_of
    query_blackboard query limit filters = do
      output ← call_tool "blackboard_query" (
          ("query", str query)
          ∷ ("limit", int (pos limit))
          ∷ ("filters", object (fields_of filters))
          ∷ [])
      lift (queried_of output)

    unfoldable pub query_prometheus : String → Exec Session PrometheusQueryOutput
    unfolding call_tool measured_of
    query_prometheus query = do
      output ← call_tool "prometheus_query" (("query", str query) ∷ [])
      lift (measured_of output)

    unfoldable pub run_sandbox_command : String → String → ℕ → Exec Session SandboxCommandOutput
    unfolding call_tool executed_of
    run_sandbox_command command working_directory timeout_seconds = do
      output ← call_tool "sandbox_command" (
          ("command", str command)
          ∷ ("working_directory", str working_directory)
          ∷ ("timeout_seconds", int (pos timeout_seconds))
          ∷ [])
      lift (executed_of output)

    unfoldable pub inspect_redis_stream : String → ℕ → Exec Session RedisInspectOutput
    unfolding call_tool inspected_of
    inspect_redis_stream stream_name count = do
      output ←
          call_tool "redis_stream_inspect"
            (("stream_name", str stream_name) ∷ ("count", int (pos count)) ∷ [])
      lift (inspected_of output)

    unfoldable pub http_request : HttpRequestInput → Exec Session HttpRequestOutput
    unfolding call_tool responded_of fields_of
    http_request input = do
      output ← call_tool "http_request" (
          ("method", str input.method)
          ∷ ("url", str input.url)
          ∷ ("headers", texts_object input.headers)
          ∷ ("params", texts_object input.params)
          ∷ ("json_body", object_or_null input.json_body)
          ∷ ("timeout_seconds", int input.timeout_seconds)
          ∷ [])
      lift (responded_of output)

    unfoldable pub read_kubernetes_resource :
        String → String → String → Exec Session KubernetesReadOutput
    unfolding call_tool state_of
    read_kubernetes_resource namespace kind name = do
      output ←
          call_tool "kubernetes_read"
            (("namespace", str namespace) ∷ ("kind", str kind) ∷ ("name", str name) ∷ [])
      lift (state_of output)

    unfoldable pub patch_kubernetes_resource :
        String → String → String → Dict String String → Exec Session KubernetesPatchOutput
    unfolding call_tool patched_of fields_of
    patch_kubernetes_resource namespace kind name patch = do
      output ← call_tool "kubernetes_patch" (
          ("namespace", str namespace)
          ∷ ("kind", str kind)
          ∷ ("name", str name)
          ∷ ("patch", texts_object patch)
          ∷ [])
      lift (patched_of output)
