-- ===== src/Base/Sorting.antt =====
-- ORDER BY and LIMIT keep the keys of a list, if the limit leaves room for them.
use jobsys.Base.{
  ℕ, zero, suc, ◌≤◌, ◌≡◌, refl, ap, ◌∙◌, Bool, ◌||◌, List, [], ◌∷◌, map, arith, ◌==◌, take,
  insert_by, sort_with, length,
}
use jobsys.Base.Unique.{contains}

module _ {ℓ} {A : Type ℓ} where
  length-insert_by :
      (le : A → A → Bool) (a : A) (xs : List A) → length (insert_by le a xs) ≡ suc (length xs)
  unfolding insert_by
  length-insert_by le a [] = refl
  length-insert_by le a (x ∷ xs) = ground (arith, length-insert_by le a xs)

  pub length-sort_with : (le : A → A → Bool) (xs : List A) → length (sort_with le xs) ≡ length xs
  unfolding sort_with
  length-sort_with le [] = refl
  length-sort_with le (x ∷ xs) =
      length-insert_by le x (sort_with le xs) ∙ ap suc (length-sort_with le xs)

  pub take-all : (n : ℕ) (xs : List A) → length xs ≤ n → take n xs ≡ xs
  take-all zero [] h = refl
  take-all zero (x ∷ xs) h = absurd (omega arith)
  take-all (suc n) [] h = refl
  take-all (suc n) (x ∷ xs) h = ap (◌∷◌ x) (take-all n xs (omega arith))

-- Whether a key is among those of a list.
abbrev pub names {ℓ} : {A : Type ℓ} → (A → ℕ) → ℕ → List A → Bool
names key id xs = contains ◌==◌ id (map key xs)

module _ {ℓ} {A : Type ℓ} (key : A → ℕ) (id : ℕ) (le : A → A → Bool) where
  names-insert_by : (a : A) (xs : List A) → names key id (insert_by le a xs) ≡ names key id (a ∷ xs)
  unfolding insert_by
  names-insert_by a [] = refl
  names-insert_by a (x ∷ xs) = ground (arith, names-insert_by a xs)

  pub names-sort_with : (xs : List A) → names key id (sort_with le xs) ≡ names key id xs
  unfolding sort_with
  names-sort_with [] = refl
  names-sort_with (x ∷ xs) =
      names-insert_by x (sort_with le xs) ∙ ap (λ b. (key x == id) || b) (names-sort_with xs)
