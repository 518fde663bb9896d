-- ===== src/Prelude/Ranking.antt =====
-- The best of a list: those with a positive key, the greatest keys first, up to a number of them.
use gestalt_agentic_software.Prelude.{
  ℕ, Bool, List, All, ltb, take, ◌<◌, ◌≤◌, select, suc, ◌⊎◌, length, ◌∷◌, [], inl, ◌≡◌, inr, zero,
  ap, All-take, refl, All-select, true, All-imp₂, false, ltb→lt, arith,
}
use mathlib.Core.List.{Memᴰ}
use gestalt_agentic_software.Prelude.Sorting.{
  sort_desc, IsDescending, sort_desc-All_inv, sort_desc-IsDescending, sort_desc-All,
}

module _ {A : Type 0} (key : A → ℕ) where
  abbrev pub positive : A → Bool
  positive x = ltb 0 (key x)

  abbrev pub best : ℕ → List A → List A
  best n xs = take n (select positive (sort_desc key xs))

  -- What is said of an element `c` with a positive key: it is among `found`, or `found` is full and
  -- holds nothing with a lesser key.
  abbrev pub IsRanked : ℕ → List A → A → Type 0
  IsRanked n found c =
      0 < key c → Memᴰ c found ⊎ ((length found ≡ n) × All (λ m. key c ≤ key m) found)

  IsRanked-cons :
      (n : ℕ) (x : A) (found : List A) (c : A)
      → key c ≤ key x
      → IsRanked n found c
      → IsRanked (suc n) (x ∷ found) c
  IsRanked-cons n x found c below r pos = elim (r pos) [
    | inl m ↦ inl (Memᴰ.tail m)
    | inr (full, others) ↦ inr (ap suc full, (below, others))
  ]

  IsRanked-none : (xs : List A) → All (IsRanked 0 []) xs
  IsRanked-none [] = tt
  IsRanked-none (x ∷ xs) = ((λ pos. inr (refl, tt)), IsRanked-none xs)

  IsRanked-step :
      (n : ℕ) (x : A) (xs rest : List A) (b : Bool)
      → positive x ≡ b
      → All (λ c. key c ≤ key x) xs
      → All (IsRanked n (take n rest)) xs
      → All (IsRanked (suc n) (take (suc n) rest)) xs
      → All (IsRanked (suc n) (take (suc n) (elim b [ true ↦ x ∷ rest | false ↦ rest ]))) (x ∷ xs)
  IsRanked-step n x xs rest true e below fewer more = (
    (λ pos. inl (Memᴰ.head refl)),
    All-imp₂ _ _ _ xs (λ c. IsRanked-cons n x (take n rest) c) below fewer,
  )
  IsRanked-step n x xs rest false e below fewer more = ((λ pos. absurd (ground arith)), more)

  ranked :
      (n : ℕ) (xs : List A)
      → IsDescending key xs
      → All (IsRanked n (take n (select positive xs))) xs
  ranked n [] d = tt
  ranked zero (x ∷ xs) d = IsRanked-none (x ∷ xs)
  ranked (suc n) (x ∷ xs) d =
      IsRanked-step n x xs (select positive xs) (positive x) refl d.0 (ranked n xs d.1)
        (ranked (suc n) xs d.1)

  pub best-IsRanked : (n : ℕ) (xs : List A) → All (IsRanked n (best n xs)) xs
  best-IsRanked n xs =
      sort_desc-All_inv key _ xs (ranked n (sort_desc key xs) (sort_desc-IsDescending key xs))

  keep-positive :
      (x : A) (rest : List A) (b : Bool)
      → positive x ≡ b
      → All (λ y. 0 < key y) rest
      → All (λ y. 0 < key y) (elim b [ true ↦ x ∷ rest | false ↦ rest ])
  keep-positive x rest true e h = (ltb→lt _ _ e, h)
  keep-positive x rest false e h = h

  select-positive : (xs : List A) → All (λ x. 0 < key x) (select positive xs)
  select-positive [] = tt
  select-positive (x ∷ xs) =
      keep-positive x (select positive xs) (positive x) refl (select-positive xs)

  select-IsDescending :
      (p : A → Bool) (xs : List A) → IsDescending key xs → IsDescending key (select p xs)
  select-IsDescending p [] d = tt
  select-IsDescending p (x ∷ xs) d = pick (p x) (select-IsDescending p xs d.1)
    where
      pick :
          (b : Bool)
          → IsDescending key (select p xs)
          → IsDescending key (let r = select p xs in elim b [ true ↦ x ∷ r | false ↦ r ])
      pick true rest = (All-select _ p xs d.0, rest)
      pick false rest = rest

  take-IsDescending : (n : ℕ) (xs : List A) → IsDescending key xs → IsDescending key (take n xs)
  take-IsDescending zero xs d = tt
  take-IsDescending (suc n) [] d = tt
  take-IsDescending (suc n) (x ∷ xs) d = (All-take _ n xs d.0, take-IsDescending n xs d.1)

  pub best-positive : (n : ℕ) (xs : List A) → All (λ x. 0 < key x) (best n xs)
  best-positive n xs = All-take _ n _ (select-positive (sort_desc key xs))

  pub best-IsDescending : (n : ℕ) (xs : List A) → IsDescending key (best n xs)
  best-IsDescending n xs =
      take-IsDescending n _ (select-IsDescending positive _ (sort_desc-IsDescending key xs))

  pub best-All : (P : A → Type 0) (n : ℕ) (xs : List A) → All P xs → All P (best n xs)
  best-All P n xs h = All-take P n _ (All-select P positive _ (sort_desc-All key P xs h))
