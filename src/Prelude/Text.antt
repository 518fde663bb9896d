-- ===== src/Prelude/Text.antt =====
-- Python's `str`: `==` on whole texts, and `lower`, `in`, `startswith` over the code points. The
-- texts that the program compares this way are ASCII; `lower` leaves every other code point.
use Prim.Native.Nat.{ℕ, ◌+◌}
use Prim.Native.Char.{code}
use Prim.Native.String.{String, count, ◌++◌ as append}
use mathlib.Core.Bool.{Bool, true, false, ◌&&◌, ◌||◌}
use mathlib.Core.List.{List, [], ◌∷◌, map}
use text.Mathlib.Text.{◌==◌ as string_eq}
use gestalt_agentic_software.Prelude.Tests.{leb, ◌==◌, if◌then◌else◌}
pub use text.Mathlib.TextEquality.{eq_iff as str_eq_iff}
pub use text.Mathlib.TextPositions.{eq_refl as str_eq_refl}

abbrev pub str_eq : String → String → Bool
str_eq s t = string_eq s t

-- The code points of a text.
abbrev pub codes : String → List ℕ
codes String.[] = []
codes (String.◌∷◌ c s) = code c ∷ codes s

-- `str.lower`
abbrev pub lower_code : ℕ → ℕ
lower_code c = if leb b'A' c && leb c b'Z' then c + 32 else c

abbrev pub lower : String → List ℕ
lower s = map lower_code (codes s)

-- `s.startswith(prefix)`
abbrev pub starts_with : List ℕ → List ℕ → Bool
starts_with s [] = true
starts_with [] (p ∷ ps) = false
starts_with (c ∷ cs) (p ∷ ps) = c == p && starts_with cs ps

-- `sub in s`
abbrev pub contains : List ℕ → List ℕ → Bool
contains [] sub = starts_with [] sub
contains (c ∷ cs) sub = starts_with (c ∷ cs) sub || contains cs sub

infixr 65 ◌+++◌
abbrev pub ◌+++◌ : String → String → String
s +++ t = append s t

-- `len(s)`
abbrev pub str_len : String → ℕ
str_len s = count s

-- `s in xs` for a list of texts
abbrev pub mem_str : String → List String → Bool
mem_str s [] = false
mem_str s (x ∷ xs) = string_eq x s || mem_str s xs

-- sep.join(parts)
abbrev pub join : String → List String → String
join sep [] = ""
join sep (x ∷ []) = x
join sep (x ∷ y ∷ ys) = append x (append sep (join sep (y ∷ ys)))

-- str.isspace, over the code points that Unicode calls white space
abbrev pub is_space : ℕ → Bool
is_space c =
    leb 9 c && leb c 13
    || leb 28 c && leb c 32
    || c == 0x85
    || c == 0xa0
    || c == 0x1680
    || leb 0x2000 c && leb c 0x200a
    || c == 0x2028
    || c == 0x2029
    || c == 0x202f
    || c == 0x205f
    || c == 0x3000

-- Starts a new word, or adds to the word that begins the rest.
abbrev pub add_code : ℕ → List ℕ → List (List ℕ) → List (List ℕ)
add_code c [] [] = (c ∷ []) ∷ []
add_code c [] (w ∷ ws) = (c ∷ []) ∷ w ∷ ws
add_code c (d ∷ _) [] = (c ∷ []) ∷ []
add_code c (d ∷ _) (w ∷ ws) = if is_space d then (c ∷ []) ∷ w ∷ ws else (c ∷ w) ∷ ws

-- s.split(), the words between white space
abbrev pub split : List ℕ → List (List ℕ)
split [] = []
split (c ∷ cs) = let rest = split cs in if is_space c then rest else add_code c cs rest

-- s.strip() is empty
abbrev pub is_blank : List ℕ → Bool
is_blank [] = true
is_blank (c ∷ cs) = is_space c && is_blank cs
