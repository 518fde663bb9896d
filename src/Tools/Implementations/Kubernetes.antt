-- ===== src/Tools/Implementations/Kubernetes.antt =====
-- gestalt/tools/implementations/kubernetes.py
use gestalt_agentic_software.Prelude.Int.{pos}
use gestalt_agentic_software.Prelude.{◌∷◌, [], false, true}
use gestalt_agentic_software.Protocol.Enums.{ToolExecutionMode}
use gestalt_agentic_software.Python.Exec.{Exec, Result, pure, raise, attribute_error, ok}
use gestalt_agentic_software.Protocol.Models.{Metadata}
use gestalt_agentic_software.Runtime.{World}
use gestalt_agentic_software.Tools.Base.{BaseGestaltTool, ToolContext}
use gestalt_agentic_software.Tools.Outputs.{
  ToolInput, ToolOutput, kubernetes_patched, kubernetes_state,
}
use gestalt_agentic_software.Tools.Fields.{model, some_text, texts_field, and_then}
use gestalt_agentic_software.Python.Dict
use gestalt_agentic_software.Python.Dict.{string_key}

unfoldable pub validate_read : Metadata → Result ToolInput
unfolding model some_text
validate_read payload = model ("namespace" ∷ "kind" ∷ "name" ∷ []) payload (
    and_then (some_text payload "namespace") λ ns. and_then (some_text payload "kind") λ k.
      and_then (some_text payload "name")
        λ n. ok (ToolInput.kubernetes_read (record { namespace = ns; kind = k; name = n })))

unfoldable pub run_read : ToolInput → ToolContext → Exec World ToolOutput
run_read (ToolInput.kubernetes_read input) context = pure (
    kubernetes_state (record {
      namespace = input.namespace;
      kind = input.kind;
      name = input.name;
      status = "mocked";
      details = ("inspected_by", context.agent_name) ∷ ("trace_id", context.trace_id) ∷ [];
    }))
run_read _ context = raise attribute_error "namespace"

unfoldable pub kubernetes_read_tool : BaseGestaltTool World ToolInput ToolOutput
unfolding validate_read run_read
kubernetes_read_tool = record {
  descriptor = record {
    name = "kubernetes_read";
    description = "Inspect Kubernetes resources in an allowed namespace.";
    execution_mode = ToolExecutionMode.read_only;
    timeout_seconds = pos 30;
    retries = pos 0;
    requires_approval = false;
  };
  validate_input = validate_read;
  arun = run_read;
}

unfoldable pub validate_patch : Metadata → Result ToolInput
unfolding model some_text texts_field
validate_patch payload = model ("namespace" ∷ "kind" ∷ "name" ∷ "patch" ∷ []) payload (
    and_then (some_text payload "namespace") λ ns. and_then (some_text payload "kind") λ k.
      and_then (some_text payload "name") λ n. and_then (texts_field payload "patch") λ p.
        ok (ToolInput.kubernetes_patch (record { namespace = ns; kind = k; name = n; patch = p })))

unfoldable pub run_patch : ToolInput → ToolContext → Exec World ToolOutput
unfolding Dict.put
run_patch (ToolInput.kubernetes_patch input) context = pure (
    kubernetes_patched (record {
      namespace = input.namespace;
      kind = input.kind;
      name = input.name;
      applied = true;
      patch_summary = Dict.put input.patch "applied_by" context.agent_name;
    }))
run_patch _ context = raise attribute_error "namespace"

unfoldable pub kubernetes_patch_tool : BaseGestaltTool World ToolInput ToolOutput
unfolding validate_patch run_patch
kubernetes_patch_tool = record {
  descriptor = record {
    name = "kubernetes_patch";
    description = "Apply a restricted patch to an allowed Kubernetes resource.";
    execution_mode = ToolExecutionMode.mutating;
    timeout_seconds = pos 30;
    retries = pos 0;
    requires_approval = true;
  };
  validate_input = validate_patch;
  arun = run_patch;
}
