-- ===== src/Orchestrator/Distinct.antt =====
-- The loop of `determine_next_agents` that drops repeats.

use gestalt_agentic_software.Orchestrator.Agents.{dedupe}
use gestalt_agentic_software.Prelude.{
  List, String, mem_str, if◌then◌else◌, str_eq, ◌∷◌, [], ◌++◌, ◌≡◌, false, ◌||◌, Bool, arith, true,
  refl, str_eq_iff, sym,
}
use gestalt_agentic_software.Python.Dict.{string_key}
use mathlib.Core.Path.{subst}

-- No text stands twice in the list.
unfoldable pub IsDistinct : List String → Type 0
IsDistinct [] = Unit
IsDistinct (x ∷ xs) = (mem_str x xs ≡ false) × IsDistinct xs

mem-append :
    (x : String) (xs ys : List String) → mem_str x (xs ++ ys) ≡ mem_str x xs || mem_str x ys
mem-append x [] ys = refl
mem-append x (y ∷ xs) ys = ground (arith, mem-append x xs ys)

str_eq-true_sym : (x y : String) → str_eq x y ≡ true → str_eq y x ≡ true
str_eq-true_sym x y h = (str_eq_iff y x).1 (sym ((str_eq_iff x y).0 h))

str_eq_sym : (x y : String) → str_eq x y ≡ str_eq y x
str_eq_sym x y = ground (arith, str_eq-true_sym x y, str_eq-true_sym y x)

append-IsDistinct :
    (xs : List String) (a : String)
    → mem_str a xs ≡ false
    → IsDistinct xs
    → IsDistinct (xs ++ a ∷ [])
unfolding IsDistinct
append-IsDistinct [] a h d = (refl, tt)
append-IsDistinct (x ∷ xs) a h (fresh, d) = (
  ground (arith, mem-append x xs (a ∷ []), str_eq_sym x a),
  append-IsDistinct xs a (ground arith) d,
)

keep-IsDistinct :
    (acc : List String) (a : String) (b : Bool)
    → mem_str a acc ≡ b
    → IsDistinct acc
    → IsDistinct (if b then acc else acc ++ a ∷ [])
keep-IsDistinct acc a true h d = d
keep-IsDistinct acc a false h d = append-IsDistinct acc a h d

dedupe-IsDistinct_from : (xs acc : List String) → IsDistinct acc → IsDistinct (dedupe acc xs)
unfolding dedupe
dedupe-IsDistinct_from [] acc d = d
dedupe-IsDistinct_from (x ∷ xs) acc d =
    dedupe-IsDistinct_from xs (if mem_str x acc then acc else acc ++ x ∷ [])
      (keep-IsDistinct acc x (mem_str x acc) refl d)

mem-same :
    (a x : String) (acc : List String)
    → mem_str a acc ≡ true
    → str_eq a x ≡ true
    → mem_str x acc ≡ true
mem-same a x acc h e = subst (λ s. mem_str s acc ≡ true) ((str_eq_iff a x).0 e) h

mem-absorb :
    (a x : String) (acc : List String)
    → mem_str a acc ≡ true
    → mem_str x acc ≡ mem_str x acc || str_eq a x
mem-absorb a x acc h = ground (arith, mem-same a x acc h)

mem-keep :
    (acc : List String) (a x : String) (b : Bool)
    → mem_str a acc ≡ b
    → mem_str x (if b then acc else acc ++ a ∷ []) ≡ mem_str x acc || str_eq a x
mem-keep acc a x true h = mem-absorb a x acc h
mem-keep acc a x false h = ground (arith, mem-append x acc (a ∷ []))

mem-dedupe_from :
    (x : String) (xs acc : List String) → mem_str x (dedupe acc xs) ≡ mem_str x acc || mem_str x xs
unfolding dedupe
mem-dedupe_from x [] acc = ground arith
mem-dedupe_from x (y ∷ xs) acc = ground (
  arith,
  mem-dedupe_from x xs (if mem_str y acc then acc else acc ++ y ∷ []),
  mem-keep acc y x (mem_str y acc) refl,
)

-- Dropping repeats leaves each text of the list once, and no other text.
pub dedupe-IsDistinct :
    (xs : List String)
    → IsDistinct (dedupe [] xs) × ((x : String) → mem_str x (dedupe [] xs) ≡ mem_str x xs)
unfolding IsDistinct
dedupe-IsDistinct xs = (dedupe-IsDistinct_from xs [] tt, λ x. mem-dedupe_from x xs [])
