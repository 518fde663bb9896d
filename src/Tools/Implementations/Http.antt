-- ===== src/Tools/Implementations/Http.antt =====
-- gestalt/tools/implementations/http.py. The HTTP client is a parameter.
use gestalt_agentic_software.Protocol.Models.{Metadata}
use gestalt_agentic_software.Prelude.Int.{pos}
use gestalt_agentic_software.Protocol.Enums.{ToolExecutionMode}
use gestalt_agentic_software.Runtime.{World, http_call}
use gestalt_agentic_software.Python.Exec.{
  Exec, ◌>>=◌, pure, raise, Result, permission_error, attribute_error, ok,
}
use gestalt_agentic_software.Tools.Base.{BaseGestaltTool, ToolContext}
use gestalt_agentic_software.Tools.Outputs.{HttpRequestInput, ToolInput, ToolOutput, responded}
use gestalt_agentic_software.Config.{SecurityConfig}
use gestalt_agentic_software.Prelude.{
  List, String, Bool, any, true, if◌then◌else◌, starts_with, codes, ◌||◌, false, ◌+++◌, ◌∷◌, [],
  some, none,
}
use gestalt_agentic_software.Tools.Fields.{
  model, text_field, bounded_text, int_field, texts_field, optional_dict_field, and_then,
}
use gestalt_agentic_software.Tools.Outside.{Outside, call_outside}

-- any(str(payload.url).startswith(prefix) for prefix in self._allowlist)
unfoldable pub on_allowlist : List String → String → Bool
on_allowlist allowlist url = any (λ p. starts_with (codes url) (codes p)) allowlist

-- not self._allowlist
abbrev pub no_allowlist : List String → Bool
no_allowlist [] = true
no_allowlist (_ ∷ _) = false

module _ (outside : Outside) where
  unfoldable pub validate_http : Metadata → Result ToolInput
  unfolding model text_field bounded_text int_field texts_field optional_dict_field
  validate_http payload =
      model ("method" ∷ "url" ∷ "headers" ∷ "params" ∷ "json_body" ∷ "timeout_seconds" ∷ []) payload
        (and_then (bounded_text 3 10 (text_field payload "method" (some "GET"))) λ m.
          and_then (and_then (text_field payload "url" none) outside.coercions.http_url) λ u.
            and_then (texts_field payload "headers") λ h.
              and_then (texts_field payload "params") λ p.
                and_then (optional_dict_field payload "json_body") λ j.
                  and_then
                    (int_field outside.coercions payload "timeout_seconds" (pos 15) (pos 1)
                      (pos 60))
                    λ t. ok (
                      ToolInput.http_request (record {
                        method = m;
                        url = u;
                        headers = h;
                        params = p;
                        json_body = j;
                        timeout_seconds = t;
                      })))

  unfoldable pub send : HttpRequestInput → Exec World ToolOutput
  unfolding call_outside
  send input = do
    response ←
        call_outside (http_call (outside.upper input.method) input.url)
          (λ n. outside.respond n input)
    pure (responded response)

  unfoldable pub run_http : List String → ToolInput → ToolContext → Exec World ToolOutput
  unfolding on_allowlist send
  run_http allowlist (ToolInput.http_request input) context =
      if no_allowlist allowlist || on_allowlist allowlist input.url
      then send input
      else raise permission_error ("URL '" +++ input.url +++ "' is not in the outbound allowlist.")
  run_http allowlist _ context = raise attribute_error "url"

  unfoldable pub http_request_tool : SecurityConfig → BaseGestaltTool World ToolInput ToolOutput
  unfolding validate_http run_http
  http_request_tool security = record {
    descriptor = record {
      name = "http_request";
      description = "Performs allowlisted outbound HTTP requests for controlled integrations.";
      execution_mode = ToolExecutionMode.mutating;
      timeout_seconds = pos 30;
      retries = pos 0;
      requires_approval = false;
    };
    validate_input = validate_http;
    arun = run_http security.outbound_http_allowlist;
  }
