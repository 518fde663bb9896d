-- ===== src/Python/Dict.antt =====
-- Python's `dict` with text or number keys. A key keeps its place when its value is replaced.
use gestalt_agentic_software.Prelude.{
  String, ◌≡◌, refl, Bool, true, Option, none, some, List, [], ◌∷◌, arith, ◌↔◌, if◌then◌else◌,
  str_eq, str_eq_iff, ◌==◌, ==_iff, ℕ,
}

pub record Key (K : Type 0) : Type 0 where
  pub same : K → K → Bool
  pub same_iff : (a b : K) → (same a b ≡ true) ↔ (a ≡ b)

instance abbrev pub string_key : Key String
string_key = record { same = str_eq; same_iff = str_eq_iff }

instance abbrev pub number_key : Key ℕ
number_key = record { same = ◌==◌; same_iff = ==_iff }

abbrev pub Dict : Type 0 → Type 0 → Type 0
Dict K V = List (K × V)

module _ {K V : Type 0} ⦃k : Key K⦄ where
  -- d.get(key)
  unfoldable pub get : Dict K V → K → Option V
  get [] key = none
  get ((j, v) ∷ d) key = if k.same j key then some v else get d key

  -- d[key] = value
  unfoldable pub put : Dict K V → K → V → Dict K V
  put [] key value = (key, value) ∷ []
  put ((j, v) ∷ d) key value = if k.same j key then (j, value) ∷ d else (j, v) ∷ put d key value

  -- d.update(e)
  unfoldable pub update : Dict K V → Dict K V → Dict K V
  update d [] = d
  update d ((j, v) ∷ e) = update (put d j v) e

  pub get-put :
      (d : Dict K V) (key j : K) (value : V)
      → get (put d key value) j ≡ (if k.same key j then some value else get d j)
  unfolding get put
  get-put [] key j value = refl
  get-put ((i, v) ∷ d) key j value =
      ground (arith, k.same_iff key j, k.same_iff i key, k.same_iff i j, get-put d key j value)
