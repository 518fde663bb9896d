-- ===== src/Config/Environment.antt =====
-- What the settings of gestalt/config.py are loaded from: the YAML file and the environment, and the
-- configuration of the agents. PyYAML, the file system, the environment and the validation of the
-- fields by pydantic are the parameter `Sources`.
use gestalt_agentic_software.Python.Dict
use gestalt_agentic_software.Python.Dict.{string_key, Dict}
use gestalt_agentic_software.Prelude.Int.{pos}
use gestalt_agentic_software.Python.Exec.{Result, ok, raise_with, settings_error, type_error}
use gestalt_agentic_software.Config.{GestaltSettings}
use gestalt_agentic_software.Orchestrator.Values.{truthy}
use gestalt_agentic_software.Python.Values.{
  Value, null, object, str, end, field, int, bool, array, nil, fields_of,
}
use gestalt_agentic_software.Tools.Fields.{entries_of, and_then}
use gestalt_agentic_software.Protocol.Models.{Metadata}
use gestalt_agentic_software.Prelude.{
  List, Option, String, Bool, [], if◌then◌else◌, none, ◌∷◌, some, str_eq, true, false, ◌+++◌,
}
use gestalt_agentic_software.Python.Dict
use gestalt_agentic_software.Python.Dict.{string_key, Dict}

-- `read_text` answers none where the file does not exist; `validate_fields` is what pydantic does with
-- the fields of GestaltSettings before `validate_agents`.
pub record Sources : Type 0 where
  pub read_text : String → Option String
  pub safe_load : String → Result Value
  pub environ : String → Option String
  pub validate_fields : Metadata → Result GestaltSettings

-- d.get(key, default)
abbrev pub get_or : Metadata → String → Value → Value
get_or d key default = elim (Dict.get d key) [ none ↦ default | some v ↦ v ]

-- d.pop(key, None), for what stays in `d`
unfoldable pub pop : Metadata → String → Metadata
pop [] key = []
pop ((j, v) ∷ d) key = let rest = pop d key in if str_eq j key then d else (j, v) ∷ rest

unfoldable pub as_mapping : Value → Result Metadata
unfolding entries_of
as_mapping (object fields) = ok (entries_of fields)
as_mapping _ = raise_with settings_error "Top-level YAML configuration must be a mapping."

-- `yaml.safe_load(…) or {}`
abbrev pub or_empty : Value → Value
or_empty v = if truthy v then v else object end

-- `text` is none where the file does not exist.
unfoldable pub load_text : Sources → String → Option String → Result Metadata
unfolding as_mapping truthy
load_text sources path none = raise_with settings_error ("Config file not found: " +++ path)
load_text sources path (some text) = and_then (sources.safe_load text) λ v. as_mapping (or_empty v)

unfoldable pub load_yaml_config : Sources → String → Result Metadata
unfolding load_text
load_yaml_config sources path = load_text sources path (sources.read_text path)

-- `value in (None, "")`
abbrev pub is_missing : Value → Bool
is_missing null = true
is_missing (str s) = str_eq s ""
is_missing _ = false

-- `os.environ.get(name, default)`
abbrev pub environ_or : Sources → String → Value → Value
environ_or sources name default = elim (sources.environ name) [ none ↦ default | some v ↦ str v ]

-- `os.getenv(name, default)`; a name that is no text is a type error.
unfoldable pub resolve_env : Sources → Value → Value → Result Value
resolve_env sources (str name) default =
    if is_missing (environ_or sources name default)
    then raise_with settings_error ("Required environment variable is missing: " +++ name)
    else ok (environ_or sources name default)
resolve_env sources _ default = raise_with type_error "str expected"

-- os.getenv(name)
unfoldable pub getenv : Sources → Value → Result Value
getenv sources (str name) = ok (environ_or sources name null)
getenv sources _ = raise_with type_error "str expected"

-- `model_preference` of the default policies
abbrev pub default_policies : List (String × String)
default_policies =
    ("orchestrator", "high")
    ∷ ("monitor", "low")
    ∷ ("analyzer", "medium")
    ∷ ("planner_executor", "high")
    ∷ ("optimizer", "medium")
    ∷ ("knowledge", "medium")
    ∷ ("security_audit", "critical")
    ∷ []

unfoldable pub default_configs : Metadata → List (String × String) → Metadata
default_configs tools [] = []
default_configs tools ((name, preference) ∷ rest) =
    (
      name,
      object (
          field "enabled" (bool true) (
            field "max_retries" (int (pos 2)) (
              field "tool_allowlist" (get_or tools name (array nil))
                (field "model_preference" (str preference) end)))),
    )
    ∷ default_configs tools rest

-- A section that is no mapping counts as an empty one.
abbrev pub entries_or_none : Value → Metadata
entries_or_none (object fields) = entries_of fields
entries_or_none _ = []

unfoldable pub build_agent_configs : Metadata → Value
unfolding default_configs fields_of entries_of
build_agent_configs payload = elim (get_or payload "agents" null) [
  | object (field k v rest) ↦ object (field k v rest)
  | _ ↦
      let tools = entries_or_none (get_or payload "tools" (object end)) in
      object (fields_of (default_configs tools default_policies))
]
