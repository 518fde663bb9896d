-- ===== src/App/Access.antt =====
-- Which headers the check of the admin token lets through.
use gestalt_agentic_software.Python.Exec.{ok}
use gestalt_agentic_software.App.Token.{remove_prefix, require_admin_token, after_prefix}
use gestalt_agentic_software.Prelude.{
  String, ◌≡◌, Bool-cases, ◌⊎◌, str_eq, ◌&&◌, is_space, inl, inr, refl, Option, false, ◌+++◌, arith,
  some, ◌↔◌, str_eq_iff, str_eq_refl, sym, ap, ◌∙◌, none, ==_iff, starts_with, codes, true,
}
use gestalt_agentic_software.Prelude.Strip.{lstrip, rstrip, strip}
use Prim.Native.Char.{code, Char}
use Prim.Native.String.append
use Prim.Native.String.compare
use Prim.Native.String.{◌++◌ as append}

rstrip_idem : (s : String) → rstrip (rstrip s) ≡ rstrip s
unfolding rstrip
rstrip_idem String.[] = refl
rstrip_idem (String.◌∷◌ c s) = elim (Bool-cases (str_eq (rstrip s) "" && is_space (code c))) [
  | inl gone ↦ rw gone refl
  | inr kept ↦ rw (kept, rstrip_idem s, kept) refl
]

-- What `lstrip` leaves begins with no space.
lstrip_cases :
    (s : String)
    → (lstrip s ≡ "")
      ⊎ ((c : Char) × (t : String) × (lstrip s ≡ String.◌∷◌ c t) × (is_space (code c) ≡ false))
unfolding lstrip
lstrip_cases String.[] = inl refl
lstrip_cases (String.◌∷◌ c s) = elim (Bool-cases (is_space (code c))) [
  | inl space ↦ rw space (lstrip_cases s)
  | inr solid ↦ inr (c, s, rw solid refl, solid)
]

strip_idem : (s : String) → strip (strip s) ≡ strip s
unfolding strip
strip_idem s = elim (lstrip_cases s) [
  | inl e ↦ rw e refl
  | inr (c, t, e, solid) ↦ rw (e, starts c t solid) (rstrip_idem (String.◌∷◌ c t))
]
  where
    starts :
        (c : Char) (t : String)
        → is_space (code c) ≡ false
        → lstrip (rstrip (String.◌∷◌ c t)) ≡ rstrip (String.◌∷◌ c t)
    starts c t solid = ground arith

after_prefix-append : (p t : String) → after_prefix p (append p t) ≡ t
unfolding after_prefix
after_prefix-append String.[] t = append.nil t
after_prefix-append (String.◌∷◌ c p) t = rw (append.cons c p t) (after_prefix-append p t)

starts_with-append : (p t : String) → starts_with (codes (append p t)) (codes p) ≡ true
starts_with-append String.[] t = refl
starts_with-append (String.◌∷◌ c p) t =
    rw (append.cons c p t, (==_iff (code c) (code c)).1 refl) (starts_with-append p t)

remove_prefix-append : (p t : String) → remove_prefix p (append p t) ≡ t
unfolding remove_prefix
remove_prefix-append p t = rw (starts_with-append p t) (after_prefix-append p t)

not_empty : (p t : String) → str_eq p "" ≡ false → str_eq (append p t) "" ≡ false
not_empty String.[] t h = absurd (ground (arith, h))
not_empty (String.◌∷◌ c p) t h = rw (append.cons c p t, compare.cons-nil c (append p t)) refl

accepted-strip :
    (expected : String) (header : Option String)
    → require_admin_token expected header ≡ ok tt
    → strip expected ≡ expected
unfolding require_admin_token
accepted-strip expected none h = cc
accepted-strip expected (some a) h =
    elim (Bool-cases (str_eq (strip (remove_prefix "Bearer " a)) expected)) [
      | inl same ↦
          let e = (str_eq_iff (strip (remove_prefix "Bearer " a)) expected).0 same in
          sym (ap strip e) ∙ strip_idem (remove_prefix "Bearer " a) ∙ e
      | inr other ↦ absurd (ground (arith, other))
    ]

pub require_admin_token_iff :
    (expected : String)
    → ((header : Option String) × (require_admin_token expected header ≡ ok tt))
      ↔ (strip expected ≡ expected)
require_admin_token_iff expected =
    (λ h. accepted-strip expected h.0 h.1, λ e. (some ("Bearer " +++ expected), lets_in e))
  where
    lets_in :
        strip expected ≡ expected
        → require_admin_token expected (some ("Bearer " +++ expected)) ≡ ok tt
    lets_in e =
        unfold require_admin_token in
        rw
          (
            not_empty "Bearer " expected refl,
            remove_prefix-append "Bearer " expected,
            e,
            str_eq_refl expected,
          )
          refl
