-- ===== src/Tools/Fields.antt =====
-- How an input model of gestalt/tools/implementations reads its payload: the fields with their types,
-- defaults and bounds, and no other key.
use gestalt_agentic_software.Protocol.Validation.{min_length}
use gestalt_agentic_software.Prelude.Int.{ℤ, leb_ℤ}
use gestalt_agentic_software.Protocol.Models.{Metadata, BlackboardMemoryRecord}
use gestalt_agentic_software.Prelude.{
  List, ℕ, Option, String, [], Bool, if◌then◌else◌, none, all, some, ◌∷◌, mem_str, ◌&&◌, leb,
  str_len, false,
}
use gestalt_agentic_software.Python.Exec.{
  Result, ok, raise_with, raised, validated, validation_error,
}
use gestalt_agentic_software.Python.Values.{Fields, Value, object, field, int, str, end, null, bool}
use gestalt_agentic_software.Python.Dict
use gestalt_agentic_software.Python.Dict.{Dict, string_key}

-- What pydantic makes of a value that is no integer where an `int` is wanted, of one that is no Boolean
-- where a `bool` is wanted, of the text of a URL, and of a value where a `BlackboardMemoryRecord` is
-- wanted.
pub record Coercions : Type 0 where
  pub int_from : Value → Result ℤ
  pub bool_from : Value → Result Bool
  pub http_url : String → Result String
  pub memory_record : Value → Result BlackboardMemoryRecord

abbrev invalid : {A : Type 0} → Result A
invalid = raise_with validation_error "validation error"

abbrev pub and_then : {A B : Type 0} → Result A → (A → Result B) → Result B
and_then (ok a) f = f a
and_then (raised e) f = raised e

-- extra="forbid"
unfoldable pub only_fields : List String → Metadata → Bool
only_fields names payload = all (λ entry. mem_str entry.0 names) payload

unfoldable pub text_value : Value → Result String
text_value (str s) = ok s
text_value _ = invalid

unfoldable pub text_field : Metadata → String → Option String → Result String
unfolding text_value
text_field payload name default = elim (Dict.get payload name) [
  | none ↦ elim default [ none ↦ invalid | some s ↦ ok s ]
  | some v ↦ text_value v
]

-- Field(min_length=least, max_length=most), a text
unfoldable pub bounded_text : ℕ → ℕ → Result String → Result String
bounded_text least most text =
    and_then text λ s. validated (min_length least s && leb (str_len s) most) s

-- Field(min_length=1)
unfoldable pub some_text : Metadata → String → Result String
unfolding text_field
some_text payload name = and_then (text_field payload name none) λ s. validated (min_length 1 s) s

unfoldable pub int_value : Coercions → Value → Result ℤ
int_value c (int z) = ok z
int_value c v = c.int_from v

unfoldable pub bool_value : Coercions → Value → Result Bool
bool_value c (bool b) = ok b
bool_value c v = c.bool_from v

-- bool = False
unfoldable pub flag_field : Coercions → Metadata → String → Result Bool
unfolding bool_value
flag_field c payload name = elim (Dict.get payload name) [
  | none ↦ ok false
  | some v ↦ bool_value c v
]

-- Field(ge=least, le=most), an integer that must be there
unfoldable pub required_int : Coercions → Metadata → String → ℤ → ℤ → Result ℤ
unfolding int_value
required_int c payload name least most = elim (Dict.get payload name) [
  | none ↦ invalid
  | some v ↦ and_then (int_value c v) λ z. validated (leb_ℤ least z && leb_ℤ z most) z
]

-- Field(min_length=least)
unfoldable pub long_text : Metadata → String → ℕ → Result String
unfolding text_field
long_text payload name least =
    and_then (text_field payload name none) λ s. validated (min_length least s) s

-- Field(default=…, ge=least, le=most), an integer
unfoldable pub int_field : Coercions → Metadata → String → ℤ → ℤ → ℤ → Result ℤ
unfolding int_value
int_field c payload name default least most = elim (Dict.get payload name) [
  | none ↦ ok default
  | some v ↦ and_then (int_value c v) λ z. validated (leb_ℤ least z && leb_ℤ z most) z
]

unfoldable pub entries_of : Fields → Metadata
entries_of end = []
entries_of (field k v fs) = (k, v) ∷ entries_of fs

-- dict[str, Any]
unfoldable pub dict_value : Value → Result Metadata
unfolding entries_of
dict_value (object fs) = ok (entries_of fs)
dict_value _ = invalid

unfoldable pub texts_of : Metadata → Result (Dict String String)
unfolding text_value
texts_of [] = ok []
texts_of ((k, v) ∷ rest) =
    let others = texts_of rest in and_then (text_value v) λ s. and_then others λ d. ok ((k, s) ∷ d)

-- dict[str, Any] = Field(default_factory=dict)
unfoldable pub dict_field : Metadata → String → Result Metadata
unfolding dict_value
dict_field payload name = elim (Dict.get payload name) [ none ↦ ok [] | some v ↦ dict_value v ]

-- dict[str, str] = Field(default_factory=dict)
unfoldable pub texts_field : Metadata → String → Result (Dict String String)
unfolding dict_field texts_of
texts_field payload name = and_then (dict_field payload name) texts_of

unfoldable pub optional_dict_value : Value → Result (Option Metadata)
unfolding dict_value
optional_dict_value null = ok none
optional_dict_value v = and_then (dict_value v) λ d. ok (some d)

-- dict[str, Any] | None = None
unfoldable pub optional_dict_field : Metadata → String → Result (Option Metadata)
unfolding optional_dict_value
optional_dict_field payload name = elim (Dict.get payload name) [
  | none ↦ ok none
  | some v ↦ optional_dict_value v
]

-- A model of which the payload has no other field.
unfoldable pub model : {A : Type 0} → List String → Metadata → Result A → Result A
unfolding only_fields
model names payload fields = if only_fields names payload then fields else invalid
