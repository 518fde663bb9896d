-- ===== src/Gateway.antt =====
-- gestalt/utils/model_gateway.py. A response model is its validator over the payload's dictionary.
use gestalt_agentic_software.Python.Exec.{Result, Exec, raise_with, lift, value_error, ◌>>=◌}
use gestalt_agentic_software.Protocol.Models.{Metadata}
use gestalt_agentic_software.Stats.Policy.{derive_model_policy}
use gestalt_agentic_software.Stats.Model.{GestaltStats}
use gestalt_agentic_software.Prelude.{
  String, Bool, Option, if◌then◌else◌, some, str_eq, ◌||◌, none, starts_with, codes,
}
use gestalt_agentic_software.Config.{ModelPreference, ModelsConfig}
use gestalt_agentic_software.Runtime
use gestalt_agentic_software.Runtime.{Host, World}

-- The text of a tier, as `model_preference` holds it.
unfoldable pub preference_text : ModelPreference → String
preference_text ModelPreference.low = "low"
preference_text ModelPreference.medium = "medium"
preference_text ModelPreference.high = "high"
preference_text ModelPreference.critical = "critical"

-- a or b, for texts
abbrev or_text : String → String → String
or_text a b = if str_eq a "" then b else a

abbrev route_of : GestaltStats → Option String → String
route_of stats none = (derive_model_policy stats).preferred_route
route_of stats (some tier) = or_text tier (derive_model_policy stats).preferred_route

unfoldable pub select_model : ModelsConfig → GestaltStats → Option String → String
unfolding derive_model_policy
select_model config stats preferred_tier =
    let route = route_of stats preferred_tier in
    if str_eq route "critical"
    then config.routes.critical
    else if str_eq route "high"
    then config.routes.high
    else if str_eq route "medium"
    then config.routes.medium
    else or_text config.routes.low config.default_alias

unfoldable pub is_mocked : ModelsConfig → String → Bool
is_mocked config model = config.enable_mock_llm || starts_with (codes model) (codes "mock://")

module _ {A : Type 0} (validate : Metadata → Result A) where
  from_mock : Option Metadata → Result A
  from_mock none =
      raise_with value_error "Mock payload is required when the model gateway runs in mock mode."
  from_mock (some payload) = validate payload

  from_parsed : Option Metadata → Result A
  from_parsed none = raise_with value_error "LiteLLM did not return a parsed structured response."
  from_parsed (some parsed) = validate parsed

  unfoldable pub complete_structured :
      Host
      → ModelsConfig
      → String
      → String
      → GestaltStats
      → Option String
      → Option Metadata
      → Exec World A
  unfolding select_model is_mocked from_mock from_parsed Runtime.acompletion
  complete_structured host config system user stats preferred mock_payload =
      let model = select_model config stats preferred in
      if is_mocked config model
      then lift (from_mock mock_payload)
      else do parsed ← Runtime.acompletion host model system user; lift (from_parsed parsed)
