-- ===== src/Orchestrator/Reasoning.antt =====
-- gestalt/orchestrator.py: `OrchestratorReasoning`.
use gestalt_agentic_software.Orchestrator.Values.{string_of, strings, elements}
use gestalt_agentic_software.Protocol.Validation.{min_length}
use gestalt_agentic_software.Python.Exec.{
  Result, ok, raise_with, raised, validated, validation_error,
}
use gestalt_agentic_software.Protocol.Models.{Metadata}
use gestalt_agentic_software.Python.Values.{Value, array}
use gestalt_agentic_software.Prelude.{
  Bool, List, Option, String, [], all, if◌then◌else◌, none, some, str_eq, ◌||◌,
}
use gestalt_agentic_software.Python.Dict
use gestalt_agentic_software.Python.Dict.{Dict, string_key}

pub record OrchestratorReasoning : Type 0 where
  pub summary : String
  pub next_agents : List String

abbrev names_of : Option Value → Result (List String)
names_of none = ok []
names_of (some (array vs)) = strings (elements vs)
names_of (some _) = raise_with validation_error "Input should be a valid list"

abbrev known_fields : Metadata → Bool
known_fields payload = all (λ p. str_eq p.0 "summary" || str_eq p.0 "next_agents") payload

abbrev reasoning_of : Result String → Result (List String) → Result OrchestratorReasoning
reasoning_of (raised e) ns = raised e
reasoning_of (ok s) (raised e) = raised e
reasoning_of (ok s) (ok ns) = validated (min_length 16 s) (record { summary = s; next_agents = ns })

abbrev required : Option Value → Result String
required none = raise_with validation_error "Field required"
required (some v) = string_of v

-- OrchestratorReasoning.model_validate(payload)
unfoldable pub validate_reasoning : Metadata → Result OrchestratorReasoning
unfolding strings string_of elements
validate_reasoning payload =
    if known_fields payload
    then reasoning_of (required (Dict.get payload "summary"))
        (names_of (Dict.get payload "next_agents"))
    else raise_with validation_error "Extra inputs are not permitted"
