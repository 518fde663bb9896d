-- ===== src/Config/Loading.antt =====
-- What the loading of the settings comes to.
use gestalt_agentic_software.Config.Load.{
  build_settings, missing_agents, required_agents, section, settings_or_error, validate_agents,
  app_section, blackboard_section, candidate_path, events_section, normalized_payload,
  refuse_missing, telemetry_section, variable, getter, spread,
}
use gestalt_agentic_software.Config.Environment.{
  Sources, as_mapping, get_or, getenv, resolve_env, or_empty, is_missing, load_text,
  load_yaml_config, environ_or,
}
use gestalt_agentic_software.Python.Values.{
  Value, Fields, str, object, bool, int, float, array, null,
}
use gestalt_agentic_software.Tools.Fields.{and_then, entries_of}
use gestalt_agentic_software.Config.{GestaltSettings, AgentPolicyConfig}
use gestalt_agentic_software.Prelude.{
  List, All, String, ◌∷◌, [], ◌≡◌, some, Option-cases, inl, inr, Bool-cases, arith, refl, Option,
  none,
}
use gestalt_agentic_software.Protocol.Models.{Metadata}
use gestalt_agentic_software.Python.Exec.{
  ExcKind, Result, validation_error, ok, raised, settings_error,
}
use gestalt_agentic_software.Python.Dict
use gestalt_agentic_software.Python.Dict.{string_key, Dict}

-- The result is settings with P, or an exception of the kind k.
abbrev pub Settles : {A : Type 0} → ExcKind → (A → Type 0) → Result A → Type 0
Settles k P (ok a) = P a
Settles k P (raised e) = e.kind ≡ k

then-Settles :
    {A B : Type 0} (k : ExcKind) (P : A → Type 0) (Q : B → Type 0) (r : Result A) (f : A → Result B)
    → Settles k P r
    → ((a : A) → P a → Settles k Q (f a))
    → Settles k Q (and_then r f)
then-Settles k P Q (ok a) f h next = next a h
then-Settles k P Q (raised e) f h next = h

-- An entry that names an environment variable is absent or a text.
abbrev pub NamesVariable : Metadata → String → Type 0
NamesVariable d key = (name : String) → (text : String) × (get_or d key (str name) ≡ str text)

-- A section is a mapping whose entries under the keys name variables.
abbrev pub IsSection : List String → Value → Type 0
IsSection keys v =
    (fields : Fields) × (v ≡ object fields) × All (NamesVariable (entries_of fields)) keys

-- The policies of the seven agents are there.
abbrev pub HasPolicies : GestaltSettings → Type 0
HasPolicies settings =
    All (λ name. (policy : AgentPolicyConfig) × (Dict.get settings.agents name ≡ some policy))
      required_agents

pub record HasSections (payload : Metadata) : Type 0 where
  pub app : IsSection ("admin_token_env" ∷ []) (section payload "app")
  pub blackboard :
      IsSection
        ("database_url_env" ∷ "neo4j_uri_env" ∷ "neo4j_username_env" ∷ "neo4j_password_env" ∷ [])
        (section payload "blackboard")
  pub events : IsSection ("redis_url_env" ∷ []) (section payload "events")
  pub telemetry :
      IsSection ("service_name_env" ∷ "exporter_endpoint_env" ∷ []) (section payload "telemetry")

none_missing :
    (policies : Dict String AgentPolicyConfig) (names : List String)
    → missing_agents policies names ≡ []
    → All (λ name. (policy : AgentPolicyConfig) × (Dict.get policies name ≡ some policy)) names
unfolding missing_agents
none_missing policies [] h = tt
none_missing policies (name ∷ names) h = elim (Option-cases (Dict.get policies name)) [
  | inl absent ↦ absurd (ground (arith, absent))
  | inr (policy, e) ↦ ((policy, e), none_missing policies names (rw (missing_agents, e) at h))
]

validate_agents-Settles :
    (settings : GestaltSettings) → Settles validation_error HasPolicies (validate_agents settings)
unfolding validate_agents
validate_agents-Settles settings = go (missing_agents settings.agents required_agents) refl
  where
    go :
        (names : List String)
        → missing_agents settings.agents required_agents ≡ names
        → Settles validation_error HasPolicies (refuse_missing settings names)
    go [] e = none_missing settings.agents required_agents e
    go (name ∷ names) e = refl

-- It raises nothing but a SettingsError.
abbrev Refuses : {A : Type 0} → Result A → Type 0
Refuses r = Settles settings_error (λ a. Unit) r

then-Refuses :
    {A B : Type 0} (r : Result A) (f : A → Result B)
    → Refuses r
    → ((a : A) → Refuses (f a))
    → Refuses (and_then r f)
then-Refuses r f h next = then-Settles settings_error (λ a. Unit) (λ b. Unit) r f h (λ a t. next a)

resolve_env-Refuses :
    (sources : Sources) (d : Metadata) (key name : String) (default : Value)
    → NamesVariable d key
    → Refuses (variable sources d key name default)
unfolding resolve_env
resolve_env-Refuses sources d key name default h =
    elim (Bool-cases (is_missing (environ_or sources (h name).0 default))) [
      | inl missing ↦ rw ((h name).1, missing) refl
      | inr found ↦ rw ((h name).1, found) tt
    ]

getenv-Refuses :
    (sources : Sources) (d : Metadata) (key name : String)
    → NamesVariable d key
    → Refuses (getenv sources (get_or d key (str name)))
unfolding getenv
getenv-Refuses sources d key name h = rw (h name).1 tt

settings_or_error-Settles :
    (P : GestaltSettings → Type 0) (r : Result GestaltSettings)
    → Settles validation_error P r
    → Settles settings_error P (settings_or_error r)
unfolding settings_or_error
settings_or_error-Settles P (ok s) h = h
settings_or_error-Settles P (raised e) h = rw h refl

module _ (sources : Sources) (payload : Metadata) (shape : HasSections payload) where
  app_section-Refuses : Refuses (app_section sources payload)
  unfolding app_section spread
  app_section-Refuses =
      let (fields, e, (token, _)) = shape.app in
      rw e (then-Refuses _ _ (resolve_env-Refuses sources _ _ _ _ token) λ v. tt)

  blackboard_section-Refuses : Refuses (blackboard_section sources payload)
  unfolding blackboard_section getter
  blackboard_section-Refuses =
      let (fields, e, (url, (uri, (user, (password, _))))) = shape.blackboard in
      rw e (
        then-Refuses _ _ (resolve_env-Refuses sources _ _ _ _ url) λ a.
          then-Refuses _ _ (resolve_env-Refuses sources _ _ _ _ uri) λ b.
            then-Refuses _ _ (resolve_env-Refuses sources _ _ _ _ user)
              λ c. then-Refuses _ _ (resolve_env-Refuses sources _ _ _ _ password) λ d. tt)

  events_section-Refuses : Refuses (events_section sources payload)
  unfolding events_section spread
  events_section-Refuses =
      let (fields, e, (url, _)) = shape.events in
      rw e (then-Refuses _ _ (resolve_env-Refuses sources _ _ _ _ url) λ v. tt)

  telemetry_section-Refuses : Refuses (telemetry_section sources payload)
  unfolding telemetry_section spread getter
  telemetry_section-Refuses =
      let (fields, e, (service, (endpoint, _))) = shape.telemetry in
      let (app_fields, f, _) = shape.app in
      rw (e, f)
        (then-Refuses _ _ (resolve_env-Refuses sources _ _ _ _ service)
          λ a. then-Refuses _ _ (getenv-Refuses sources _ _ _ endpoint) λ b. tt)

  normalized_payload-Refuses : (path : String) → Refuses (normalized_payload sources payload path)
  unfolding normalized_payload
  normalized_payload-Refuses path = then-Refuses _ _ app_section-Refuses λ a.
      then-Refuses _ _ blackboard_section-Refuses λ b.
        then-Refuses _ _ events_section-Refuses
          λ c. then-Refuses _ _ telemetry_section-Refuses λ d. tt

as_mapping-Settles :
    (v : Value)
    → ((payload : Metadata) → as_mapping v ≡ ok payload → HasSections payload)
    → Settles settings_error HasSections (as_mapping v)
unfolding as_mapping
as_mapping-Settles (object fields) h = h (entries_of fields) refl
as_mapping-Settles null h = refl
as_mapping-Settles (bool b) h = refl
as_mapping-Settles (int z) h = refl
as_mapping-Settles (float x) h = refl
as_mapping-Settles (str s) h = refl
as_mapping-Settles (array vs) h = refl

module _ (sources : Sources) (path : String)
    (readable : (text : String)
      → sources.read_text path ≡ some text
      → (v : Value) × (sources.safe_load text ≡ ok v)
        × ((payload : Metadata) → as_mapping (or_empty v) ≡ ok payload → HasSections payload)) where
  load_text-Settles :
      (text : Option String)
      → sources.read_text path ≡ text
      → Settles settings_error HasSections (load_text sources path text)
  unfolding load_text
  load_text-Settles none e = refl
  load_text-Settles (some text) e =
      let (v, parsed, h) = readable text e in rw parsed (as_mapping-Settles (or_empty v) h)

  load_yaml_config-Settles : Settles settings_error HasSections (load_yaml_config sources path)
  unfolding load_yaml_config
  load_yaml_config-Settles = load_text-Settles (sources.read_text path) refl

-- Whatever the environment is, `build_settings` raises a SettingsError or returns settings with a policy
-- for each of the seven agents. It is assumed that the file, if it is there, is YAML, that a mapping in it
-- has the sections app, blackboard, events and telemetry as mappings, if at all, whose entries for the names of
-- variables are texts, and that pydantic raises nothing but a ValidationError.
pub build_settings-Settles :
    (sources : Sources) (config_path : Option String)
    → ((text : String)
        → sources.read_text (candidate_path config_path) ≡ some text
        → (v : Value) × (sources.safe_load text ≡ ok v)
          × ((payload : Metadata) → as_mapping (or_empty v) ≡ ok payload → HasSections payload))
    → ((d : Metadata) → Settles validation_error (λ s. Unit) (sources.validate_fields d))
    → Settles settings_error HasPolicies (build_settings sources config_path)
unfolding build_settings
build_settings-Settles sources config_path readable pydantic =
    then-Settles settings_error HasSections HasPolicies _ _
      (load_yaml_config-Settles sources (candidate_path config_path) readable)
      λ payload shape.
        then-Settles settings_error (λ d. Unit) HasPolicies _ _
          (normalized_payload-Refuses sources payload shape (candidate_path config_path))
          λ d t. settings_or_error-Settles HasPolicies _ (
            then-Settles validation_error (λ s. Unit) HasPolicies _ _ (pydantic d)
              λ s t. validate_agents-Settles s)
