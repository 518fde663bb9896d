-- ===== src/Python/Values.antt =====
-- Values of type `Any`, as they stand in a `metadata`, `payload` or `filters` dictionary.
use gestalt_agentic_software.Prelude.{String, Bool, ℕ, List, [], ◌∷◌}
use gestalt_agentic_software.Prelude.Int.{ℤ}

-- A Python float is kept as the bit pattern of its IEEE double.
abbrev pub Float : Type 0
Float = ℕ

mutual
  pub data Value : Type 0 where
    null : Value
    bool : Bool → Value
    int : ℤ → Value
    float : Float → Value
    str : String → Value
    array : Values → Value
    object : Fields → Value

  pub data Values : Type 0 where
    nil : Values
    cons : Value → Values → Values

  pub data Fields : Type 0 where
    end : Fields
    field : String → Value → Fields → Fields

-- The fields of an object, from the entries of a dictionary.
unfoldable pub fields_of : List (String × Value) → Fields
fields_of [] = end
fields_of ((k, v) ∷ rest) = field k v (fields_of rest)
