-- ===== src/Base/Columns.antt =====
-- What SELECT, ORDER BY and LIMIT keep of a list, and finding a row by its key.
use jobsys.Base.{
  ℕ, zero, suc, ◌≡◌, refl, Bool, true, false, none, some, List, [], ◌∷◌, ◌++◌, map, arith, ◌==◌,
  select, find?, take, insert_by, sort_with, All, Bool-cases, inl, inr,
}
use jobsys.Base.Unique.{contains, Distinct}

module _ {ℓ κ} {A : Type ℓ} (P : A → Type κ) where
  pub All-select : (p : A → Bool) (xs : List A) → All P xs → All P (select p xs)
  All-select p [] h = tt
  All-select p (x ∷ xs) h = elim (Bool-cases (p x)) [
    | inl e ↦ rw e (h.0, All-select p xs h.1)
    | inr e ↦ rw e (All-select p xs h.1)
  ]

  pub All-take : (n : ℕ) (xs : List A) → All P xs → All P (take n xs)
  All-take zero xs h = tt
  All-take (suc n) [] h = tt
  All-take (suc n) (x ∷ xs) h = (h.0, All-take n xs h.1)

  All-insert_by :
      (le : A → A → Bool) (a : A) (xs : List A) → P a → All P xs → All P (insert_by le a xs)
  unfolding insert_by
  All-insert_by le a [] p h = (p, tt)
  All-insert_by le a (x ∷ xs) p h = elim (Bool-cases (le a x)) [
    | inl e ↦ rw e (p, h)
    | inr e ↦ rw e (h.0, All-insert_by le a xs p h.1)
  ]

  pub All-sort_with : (le : A → A → Bool) (xs : List A) → All P xs → All P (sort_with le xs)
  unfolding sort_with
  All-sort_with le [] h = tt
  All-sort_with le (x ∷ xs) h = All-insert_by le x (sort_with le xs) h.0 (All-sort_with le xs h.1)

  pub All-find? : (p : A → Bool) (xs : List A) (a : A) → find? p xs ≡ some a → All P xs → P a
  All-find? p [] a e h = cc
  All-find? p (x ∷ xs) a e h = elim (Bool-cases (p x)) [
    | inl t ↦ let k : x ≡ a = ground arith in rw k at (h.0)
    | inr f ↦ All-find? p xs a (ground arith) h.1
  ]

module _ {ℓ} {A : Type ℓ} where
  pub find?-satisfies : (p : A → Bool) (xs : List A) (a : A) → find? p xs ≡ some a → p a ≡ true
  find?-satisfies p [] a e = cc
  find?-satisfies p (x ∷ xs) a e = elim (Bool-cases (p x)) [
    | inl t ↦ let k : x ≡ a = ground arith in rw (← k) t
    | inr f ↦ find?-satisfies p xs a (ground arith)
  ]

  -- What is selected satisfies the test.
  pub select-satisfies : (p : A → Bool) (xs : List A) → All (λ a. p a ≡ true) (select p xs)
  select-satisfies p [] = tt
  select-satisfies p (x ∷ xs) = elim (Bool-cases (p x)) [
    | inl e ↦ rw e (e, select-satisfies p xs)
    | inr e ↦ rw e (select-satisfies p xs)
  ]

  pub All-map {κ μ} :
      (P : A → Type κ) (Q : A → Type μ)
      → ((a : A) → P a → Q a)
      → (xs : List A) → All P xs
      → All Q xs
  All-map P Q f [] h = tt
  All-map P Q f (x ∷ xs) h = (f x h.0, All-map P Q f xs h.1)

  pub All-both {κ μ} :
      (P : A → Type κ) (Q : A → Type μ) (xs : List A)
      → All P xs
      → All Q xs
      → All (λ a. P a × Q a) xs
  All-both P Q [] h k = tt
  All-both P Q (x ∷ xs) h k = ((h.0, k.0), All-both P Q xs h.1 k.1)

-- A table whose key column holds no value twice.
module _ {ℓ} {A : Type ℓ} (key : A → ℕ) where
  pub others :
      (k : ℕ) (xs : List A)
      → contains ◌==◌ k (map key xs) ≡ false
      → All (λ a. (key a == k) ≡ false) xs
  others k [] h = tt
  others k (x ∷ xs) h = (ground arith, others k xs (ground arith))

  -- Each row is the one that its key finds.
  pub find?-self :
      (xs : List A)
      → Distinct ◌==◌ (map key xs)
      → All (λ a. find? (λ x. key x == key a) xs ≡ some a) xs
  find?-self [] h = tt
  find?-self (x ∷ xs) h = (
    ground arith,
    All-map _ _ later xs (All-both _ _ xs (others (key x) xs h.0) (find?-self xs h.1)),
  )
    where
      later :
          (a : A)
          → ((key a == key x) ≡ false) × (find? (λ y. key y == key a) xs ≡ some a)
          → find? (λ y. key y == key a) (x ∷ xs) ≡ some a
      later a ha = ground arith

-- Looking a row up by its key, in a table that a row is added to.
module _ {ℓ} {A : Type ℓ} (key : A → ℕ) (k : ℕ) where
  pub find-absent :
      (xs : List A) → find? (λ x. key x == k) xs ≡ none → contains ◌==◌ k (map key xs) ≡ false
  find-absent [] e = refl
  find-absent (x ∷ xs) e = let rest = find-absent xs in ground arith

  pub find-present :
      (xs : List A) (a : A)
      → find? (λ x. key x == k) xs ≡ some a
      → (key a ≡ k) × (contains ◌==◌ k (map key xs) ≡ true)
  find-present [] a e = absurd (ground arith)
  find-present (x ∷ xs) a e = let rest = find-present xs a in ground arith

  pub find-append :
      (xs : List A) (a : A)
      → find? (λ x. key x == k) xs ≡ none
      → key a ≡ k
      → find? (λ x. key x == k) (xs ++ a ∷ []) ≡ some a
  find-append [] a e h = ground arith
  find-append (x ∷ xs) a e h = let rest = find-append xs a in ground arith

  pub find-map-append :
      (g : A → A) (xs : List A) (a : A)
      → ((x : A) → key (g x) ≡ key x)
      → find? (λ x. key x == k) xs ≡ none
      → key a ≡ k
      → find? (λ x. key x == k) (map g (xs ++ a ∷ [])) ≡ some (g a)
  find-map-append g [] a same e h = let s = same a in ground arith
  find-map-append g (x ∷ xs) a same e h =
      let s = same x in let rest = find-map-append g xs a same in ground arith
