-- ===== src/Prelude/Sorting.antt =====
-- Python's `sorted(xs, key=key, reverse=True)`: descending, and stable for equal keys.
use mathlib.Core.List.{Perm}
use mathlib.Core.List.Perm
use gestalt_agentic_software.Prelude.{
  ℕ, ◌≤◌, inl, inr, List, [], ◌∷◌, arith, leb, All, Bool-cases, if◌then◌else◌, leb→le,
}

module _ {ℓ} {A : Type ℓ} (key : A → ℕ) where
  -- `x` stood before the elements of the sorted list, so it goes before those with its key.
  unfoldable pub insert_desc : A → List A → List A
  insert_desc x [] = x ∷ []
  insert_desc x (y ∷ ys) = if leb (key y) (key x) then x ∷ y ∷ ys else y ∷ insert_desc x ys

  unfoldable pub sort_desc : List A → List A
  unfolding insert_desc
  sort_desc [] = []
  sort_desc (x ∷ xs) = insert_desc x (sort_desc xs)

  abbrev pub IsDescending : List A → Type 0
  IsDescending [] = Unit
  IsDescending (x ∷ xs) = All (λ y. key y ≤ key x) xs × IsDescending xs

  insert_desc-perm : (x : A) (xs : List A) → Perm (insert_desc x xs) (x ∷ xs)
  unfolding insert_desc
  insert_desc-perm x [] = Perm.refl (x ∷ [])
  insert_desc-perm x (y ∷ ys) = elim (Bool-cases (leb (key y) (key x))) [
    | inl before ↦ rw before (Perm.refl (x ∷ y ∷ ys))
    | inr after ↦ rw after (Perm.trans (Perm.cons y (insert_desc-perm x ys)) (Perm.swap x y ys))
  ]

  pub sort_desc-perm : (xs : List A) → Perm (sort_desc xs) xs
  unfolding sort_desc
  sort_desc-perm [] = Perm.refl []
  sort_desc-perm (x ∷ xs) =
      Perm.trans (insert_desc-perm x (sort_desc xs)) (Perm.cons x (sort_desc-perm xs))

  insert_desc-All :
      (P : A → Type 0) (x : A) (xs : List A) → P x → All P xs → All P (insert_desc x xs)
  unfolding insert_desc
  insert_desc-All P x [] p h = (p, tt)
  insert_desc-All P x (y ∷ ys) p h = elim (Bool-cases (leb (key y) (key x))) [
    | inl before ↦ rw before (p, h)
    | inr after ↦ rw after (h.0, insert_desc-All P x ys p h.1)
  ]

  pub sort_desc-All : (P : A → Type 0) (xs : List A) → All P xs → All P (sort_desc xs)
  unfolding sort_desc
  sort_desc-All P [] h = tt
  sort_desc-All P (x ∷ xs) h = insert_desc-All P x (sort_desc xs) h.0 (sort_desc-All P xs h.1)

  All-below : (m n : ℕ) (xs : List A) → m ≤ n → All (λ y. key y ≤ m) xs → All (λ y. key y ≤ n) xs
  All-below m n [] h a = tt
  All-below m n (x ∷ xs) h a = (omega arith, All-below m n xs h a.1)

  insert_desc-IsDescending :
      (x : A) (xs : List A) → IsDescending xs → IsDescending (insert_desc x xs)
  unfolding insert_desc
  insert_desc-IsDescending x [] h = (tt, tt)
  insert_desc-IsDescending x (y ∷ ys) h = elim (Bool-cases (leb (key y) (key x))) [
    | inl before ↦
        rw before ((leb→le _ _ before, All-below (key y) (key x) ys (leb→le _ _ before) h.0), h)
    | inr after ↦ rw after (
      insert_desc-All (λ z. key z ≤ key y) x ys (ground arith) h.0,
      insert_desc-IsDescending x ys h.1,
    )
  ]

  pub sort_desc-IsDescending : (xs : List A) → IsDescending (sort_desc xs)
  unfolding sort_desc
  sort_desc-IsDescending [] = tt
  sort_desc-IsDescending (x ∷ xs) =
      insert_desc-IsDescending x (sort_desc xs) (sort_desc-IsDescending xs)

  insert_desc-All_inv :
      (P : A → Type 0) (x : A) (xs : List A) → All P (insert_desc x xs) → P x × All P xs
  unfolding insert_desc
  insert_desc-All_inv P x [] h = h
  insert_desc-All_inv P x (y ∷ ys) h = elim (Bool-cases (leb (key y) (key x))) [
    | inl before ↦ (rw before at h)
    | inr after ↦
        let inserted : All P (y ∷ insert_desc x ys) = rw after at h in
        let (p, rest) = insert_desc-All_inv P x ys inserted.1 in (p, (inserted.0, rest))
  ]

  pub sort_desc-All_inv : (P : A → Type 0) (xs : List A) → All P (sort_desc xs) → All P xs
  unfolding sort_desc
  sort_desc-All_inv P [] h = tt
  sort_desc-All_inv P (x ∷ xs) h =
      let (p, rest) = insert_desc-All_inv P x (sort_desc xs) h in (p, sort_desc-All_inv P xs rest)
