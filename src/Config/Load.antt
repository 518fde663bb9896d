-- ===== src/Config/Load.antt =====
-- The loading of gestalt/config.py: the sections of the normalized payload and the validation of the
-- agents.
use gestalt_agentic_software.Prelude.Int.{pos}
use gestalt_agentic_software.Python.Values.{Value, object, str, end, int, bool, fields_of}
use gestalt_agentic_software.Python.Exec.{
  Result, ok, raise_with, raised, attribute_error, type_error, validation_error, settings_error,
}
use gestalt_agentic_software.Config.{GestaltSettings, AgentPolicyConfig}
use gestalt_agentic_software.Prelude.{
  List, Option, String, some, ◌∷◌, [], if◌then◌else◌, none, str_eq, ◌+++◌, join, true,
}
use gestalt_agentic_software.Config.Environment.{
  Sources, load_yaml_config, build_agent_configs, resolve_env, get_or, getenv, pop,
}
use gestalt_agentic_software.Protocol.Models.{Metadata}
use gestalt_agentic_software.Tools.Fields.{entries_of, and_then}
use gestalt_agentic_software.Python.Dict
use gestalt_agentic_software.Python.Dict.{string_key, Dict}

-- `{**section, …}`, of a section that must be a mapping
unfoldable pub spread : Value → Result Metadata
unfolding entries_of
spread (object fields) = ok (entries_of fields)
spread _ = raise_with type_error "object is not a mapping"

-- The receiver of `section.get(…)`
unfoldable pub getter : Value → Result Metadata
unfolding entries_of
getter (object fields) = ok (entries_of fields)
getter _ = raise_with attribute_error "object has no attribute 'get'"

-- payload.get(name, {})
abbrev pub section : Metadata → String → Value
section payload name = get_or payload name (object end)

-- The variable that `key` of the section names, or `name`, and its value.
abbrev pub variable : Sources → Metadata → String → String → Value → Result Value
variable sources d key name default = resolve_env sources (get_or d key (str name)) default

module _ (sources : Sources) (payload : Metadata) where
  unfoldable pub app_section : Result Metadata
  unfolding spread resolve_env
  app_section = and_then (spread (section payload "app")) λ d.
      and_then (variable sources d "admin_token_env" "GESTALT_ADMIN_TOKEN" (str "change-me"))
        λ token. ok (Dict.put d "admin_token" token)

  unfoldable pub blackboard_section : Result Metadata
  unfolding getter resolve_env
  blackboard_section = and_then (getter (section payload "blackboard")) λ d.
      and_then
        (variable sources d "database_url_env" "GESTALT_DATABASE_URL"
          (str "sqlite+aiosqlite:///./gestalt.db"))
        λ url.
          and_then
            (variable sources d "neo4j_uri_env" "GESTALT_NEO4J_URI" (str "bolt://neo4j:7687"))
            λ uri.
              and_then
                (variable sources d "neo4j_username_env" "GESTALT_NEO4J_USERNAME" (str "neo4j"))
                λ user.
                  and_then
                    (variable sources d "neo4j_password_env" "GESTALT_NEO4J_PASSWORD"
                      (str "change-me"))
                    λ password. ok (
                      ("database_url", url)
                      ∷ ("neo4j_uri", uri)
                      ∷ ("neo4j_username", user)
                      ∷ ("neo4j_password", password)
                      ∷ ("vector_dimensions", get_or d "vector_dimensions" (int (pos 24)))
                      ∷ ("semantic_top_k", get_or d "semantic_top_k" (int (pos 8)))
                      ∷ ("memory_namespace", get_or d "memory_namespace" (str "gestalt"))
                      ∷ (
                        "use_sqlite_fallback_for_tests",
                        get_or d "use_sqlite_fallback_for_tests" (bool true),
                      )
                      ∷ [])

  unfoldable pub events_section : Result Metadata
  unfolding spread resolve_env
  events_section = and_then (spread (section payload "events")) λ d.
      and_then (variable sources d "redis_url_env" "GESTALT_REDIS_URL" (str "redis://redis:6379/0"))
        λ url. ok (Dict.put d "redis_url" url)

  -- The default of the service's name is the name in the section of the app, which `app_section` has
  -- found to be a mapping.
  unfoldable pub telemetry_section : Result Metadata
  unfolding spread getter resolve_env getenv
  telemetry_section = and_then (spread (section payload "telemetry")) λ d.
      and_then (getter (section payload "app")) λ app.
        and_then
          (variable sources d "service_name_env" "GESTALT_OTEL_SERVICE_NAME"
            (get_or app "name" (str "gestalt-core")))
          λ name.
            and_then
              (getenv sources
                (get_or d "exporter_endpoint_env" (str "GESTALT_OTEL_EXPORTER_OTLP_ENDPOINT")))
              λ endpoint.
                ok (Dict.put (Dict.put d "service_name" name) "exporter_endpoint" endpoint)

  -- The normalized payload: the sections in their order, less the names of the variables.
  unfoldable pub normalized_payload : String → Result Metadata
  unfolding app_section blackboard_section events_section telemetry_section build_agent_configs pop
      fields_of
  normalized_payload path = and_then app_section λ app. and_then blackboard_section λ blackboard.
      and_then events_section λ events. and_then telemetry_section λ telemetry. ok (
        ("config_path", str path)
        ∷ ("app", object (fields_of (pop app "admin_token_env")))
        ∷ ("models", section payload "models")
        ∷ ("blackboard", object (fields_of blackboard))
        ∷ ("events", object (fields_of (pop events "redis_url_env")))
        ∷ ("scheduler", section payload "scheduler")
        ∷ ("stats", section payload "stats")
        ∷ ("audit", section payload "audit")
        ∷ (
          "telemetry",
          object (fields_of (pop (pop telemetry "service_name_env") "exporter_endpoint_env")),
        )
        ∷ ("security", section payload "security")
        ∷ ("agents", build_agent_configs payload)
        ∷ [])

-- `sorted(required_agents)`
abbrev pub required_agents : List String
required_agents =
    "analyzer" ∷ "knowledge" ∷ "monitor" ∷ "optimizer" ∷ "orchestrator" ∷ "planner_executor"
    ∷ "security_audit" ∷ []

-- `sorted(required_agents.difference(self.agents))`
unfoldable pub missing_agents : Dict String AgentPolicyConfig → List String → List String
missing_agents policies [] = []
missing_agents policies (name ∷ names) =
    let rest = missing_agents policies names in
    elim (Dict.get policies name) [ none ↦ name ∷ rest | some policy ↦ rest ]

-- A ValueError of a validator is a ValidationError of the model.
abbrev pub refuse_missing : GestaltSettings → List String → Result GestaltSettings
refuse_missing settings [] = ok settings
refuse_missing settings (name ∷ names) =
    raise_with validation_error
      ("Missing agent policy configuration for: " +++ join ", " (name ∷ names))

unfoldable pub validate_agents : GestaltSettings → Result GestaltSettings
unfolding missing_agents
validate_agents settings = refuse_missing settings (missing_agents settings.agents required_agents)

-- `except ValidationError`
unfoldable pub settings_or_error : Result GestaltSettings → Result GestaltSettings
settings_or_error (ok settings) = ok settings
settings_or_error (raised e) = elim (e.kind) [
  | validation_error ↦ raise_with settings_error ("Invalid settings: " +++ e.message)
  | _ ↦ raised e
]

-- `Path(config_path) if config_path else Path("config/gestalt.yaml")`
abbrev pub candidate_path : Option String → String
candidate_path none = "config/gestalt.yaml"
candidate_path (some path) = if str_eq path "" then "config/gestalt.yaml" else path

unfoldable pub build_settings : Sources → Option String → Result GestaltSettings
unfolding load_yaml_config normalized_payload validate_agents settings_or_error
build_settings sources config_path =
    and_then (load_yaml_config sources (candidate_path config_path)) λ payload.
      and_then (normalized_payload sources payload (candidate_path config_path)) λ normalized.
        settings_or_error (and_then (sources.validate_fields normalized) validate_agents)
