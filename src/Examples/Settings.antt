-- ===== src/Examples/Settings.antt =====
-- The loading of the settings at a concrete file: an app section that names a variable, and no other.
use gestalt_agentic_software.Config.Load.{build_settings, normalized_payload, app_section, spread}
use gestalt_agentic_software.Config.Environment.{
  Sources, as_mapping, load_yaml_config, or_empty, load_text,
}
use gestalt_agentic_software.Examples.Program.{program_settings}
use gestalt_agentic_software.Protocol.Models.{Metadata}
use gestalt_agentic_software.Python.Exec.{settings_error, ok, raise_with, type_error}
use gestalt_agentic_software.Orchestrator.Values.{truthy}
use gestalt_agentic_software.Prelude.{some, if◌then◌else◌, refl, str_eq, ◌≡◌, none}
use gestalt_agentic_software.Config.Loading.{
  Settles, HasSections, HasPolicies, build_settings-Settles,
}
use gestalt_agentic_software.Tools.Fields.{entries_of}
use gestalt_agentic_software.Python.Values.{Value, object, field, str, end, null, Fields}
use mathlib.Core.Path.{subst}
use gestalt_agentic_software.Python.Dict
use gestalt_agentic_software.Python.Dict.{string_key}

abbrev sections : Fields
sections =
    field "app" (object (field "name" (str "gestalt") (field "admin_token_env" (str "TOKEN") end)))
      end

abbrev file : Value
file = object sections

abbrev sources : Sources
sources = record {
  read_text = λ path. some "app: ...";
  safe_load = λ text. ok file;
  environ = λ name. if str_eq name "TOKEN" then some "secret" else none;
  validate_fields = λ payload. ok program_settings;
}

file-HasSections : HasSections (entries_of sections)
unfolding Dict.get entries_of
file-HasSections = record {
  app = (_, refl, ((λ name. ("TOKEN", refl)), tt));
  blackboard = (
    end,
    refl,
    (
      λ name. (name, refl),
      (λ name. (name, refl), (λ name. (name, refl), (λ name. (name, refl), tt))),
    ),
  );
  events = (end, refl, (λ name. (name, refl), tt));
  telemetry = (end, refl, (λ name. (name, refl), (λ name. (name, refl), tt)));
}

read_as_file : (payload : Metadata) → as_mapping (or_empty file) ≡ ok payload → HasSections payload
unfolding as_mapping truthy
read_as_file payload e =
    let is : entries_of sections ≡ payload = cc in subst HasSections is file-HasSections

build_settings-Settles_example :
    Settles settings_error HasPolicies (build_settings sources (some "gestalt.yaml"))
build_settings-Settles_example =
    build_settings-Settles sources (some "gestalt.yaml") (λ text e. (file, refl, read_as_file))
      λ payload. tt

-- A section that is empty in the file raises another exception.
empty_section :
    build_settings (record sources { safe_load = λ text. ok (object (field "app" null end)) }) none
    ≡ raise_with type_error "object is not a mapping"
unfolding build_settings load_yaml_config load_text as_mapping truthy normalized_payload app_section
    spread Dict.get entries_of
empty_section = refl
