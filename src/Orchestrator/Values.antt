-- ===== src/Orchestrator/Values.antt =====
-- gestalt/orchestrator.py: values that come out of the state's metadata.
use gestalt_agentic_software.Prelude.Int.{pos}
use gestalt_agentic_software.Python.Exec.{
  Result, ok, raise_with, raised, validation_error, type_error,
}
use gestalt_agentic_software.Python.Values.{
  Fields, Value, Values, array, nil, str, bool, cons, field, object, end, int, float, null,
}
use gestalt_agentic_software.Prelude.{
  Bool, List, String, [], false, true, ◌∷◌, str_eq, ◌||◌, not, ◌==◌, zero,
}
use gestalt_agentic_software.Python.Dict.{string_key}

-- list(value), of any value
unfoldable pub elements : Values → List Value
elements nil = []
elements (cons v vs) = v ∷ elements vs

unfoldable pub keys : Fields → List Value
keys end = []
keys (field k v fs) = str k ∷ keys fs

unfoldable pub characters : String → List Value
characters String.[] = []
characters (String.◌∷◌ c s) = str (String.◌∷◌ c String.[]) ∷ characters s

unfoldable pub list_of : Value → Result (List Value)
unfolding elements keys characters
list_of (array vs) = ok (elements vs)
list_of (object fs) = ok (keys fs)
list_of (str s) = ok (characters s)
list_of _ = raise_with type_error "object is not iterable"

unfoldable pub array_of : List Value → Values
array_of [] = nil
array_of (v ∷ vs) = cons v (array_of vs)

-- The strings of a list, where a model wants `list[str]`.
unfoldable pub strings : List Value → Result (List String)
strings [] = ok []
strings (str s ∷ vs) = elim (strings vs) [ ok ss ↦ ok (s ∷ ss) | raised e ↦ raised e ]
strings (v ∷ vs) = raise_with validation_error "Input should be a valid string"

-- A value where a model wants `str`.
unfoldable pub string_of : Value → Result String
string_of (str s) = ok s
string_of _ = raise_with validation_error "Input should be a valid string"

-- The truth value of a Python value. A float is false at the two zeros.
unfoldable pub truthy : Value → Bool
truthy null = false
truthy (bool b) = b
truthy (int (pos zero)) = false
truthy (int _) = true
truthy (float x) = not (x == 0 || x == 0x8000000000000000)
truthy (str s) = not (str_eq s "")
truthy (array nil) = false
truthy (array _) = true
truthy (object end) = false
truthy (object _) = true
