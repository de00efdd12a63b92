-- ===== src/Base/Paging.antt =====
-- Reading a table in ascending order of a key, a page at a time.
use jobsys.Base.{
  ℕ, zero, suc, ◌≤◌, ◌<◌, ◌≡◌, refl, ap, Bool, false, inl, inr, Bool-cases, List, [], ◌∷◌, ◌++◌,
  map, arith, ◌==◌, leb, select, take, insert_by, sort_by, sort_with, length, All, if◌then◌else◌,
}
use jobsys.Base.Unique.{Distinct}
use jobsys.Base.Columns.{All-select, All-sort_with, others, All-map}

module _ {ℓ} {A : Type ℓ} (key : A → ℕ) where
  abbrev pub at_least : ℕ → A → Bool
  at_least k a = leb k (key a)

  abbrev le : A → A → Bool
  le a b = leb (key a) (key b)

  abbrev pub Ascending : List A → Type ℓ
  Ascending [] = Unit
  Ascending (x ∷ xs) = All (λ y. key x < key y) xs × Ascending xs

  All-insert_by :
      (P : A → Type 0) (a : A) (xs : List A) → P a → All P xs → All P (insert_by le a xs)
  unfolding insert_by
  All-insert_by P a [] p h = (p, tt)
  All-insert_by P a (x ∷ xs) p h = elim (Bool-cases (le a x)) [
    | inl t ↦ rw t (p, h)
    | inr f ↦ rw f (h.0, All-insert_by P a xs p h.1)
  ]

  select-insert_by :
      (k : ℕ) (a : A) (xs : List A)
      → select (at_least k) (insert_by le a xs)
        ≡ (if at_least k a then insert_by le a (select (at_least k) xs) else select (at_least k) xs)
  unfolding insert_by
  select-insert_by k a [] = refl
  select-insert_by k a (x ∷ xs) = let rest = select-insert_by k a xs in ground arith

  pub select-sort_by :
      (k : ℕ) (xs : List A)
      → select (at_least k) (sort_by key xs) ≡ sort_by key (select (at_least k) xs)
  unfolding sort_with
  select-sort_by k [] = refl
  select-sort_by k (x ∷ xs) =
      let one = select-insert_by k x (sort_by key xs) in
      let rest = select-sort_by k xs in ground arith

  insert_by-Ascending :
      (a : A) (xs : List A)
      → All (λ y. (key y == key a) ≡ false) xs
      → Ascending xs
      → Ascending (insert_by le a xs)
  unfolding insert_by
  insert_by-Ascending a [] d h = (tt, tt)
  insert_by-Ascending a (x ∷ xs) d h = elim (Bool-cases (le a x)) [
    | inl t ↦
        let d0 = d.0 in
        let below : key a < key x = ground arith in
        rw t ((below, All-map _ _ (λ y l. omega (arith, below, l)) xs h.0), h)
    | inr f ↦ rw f (
      All-insert_by (λ y. key x < key y) a xs (ground arith) h.0,
      insert_by-Ascending a xs d.1 h.1,
    )
  ]

  pub sort_by-Ascending : (xs : List A) → Distinct ◌==◌ (map key xs) → Ascending (sort_by key xs)
  unfolding sort_with
  sort_by-Ascending [] d = tt
  sort_by-Ascending (x ∷ xs) d =
      insert_by-Ascending x (sort_by key xs)
        (All-sort_with (λ y. (key y == key x) ≡ false) le xs (others key (key x) xs d.0))
        (sort_by-Ascending xs d.1)

  pub Ascending-select : (p : A → Bool) (xs : List A) → Ascending xs → Ascending (select p xs)
  Ascending-select p [] h = tt
  Ascending-select p (x ∷ xs) h = elim (Bool-cases (p x)) [
    | inl t ↦ rw t (All-select _ p xs h.0, Ascending-select p xs h.1)
    | inr f ↦ rw f (Ascending-select p xs h.1)
  ]

  pub select-select :
      (j k : ℕ) (xs : List A)
      → j ≤ k
      → select (at_least k) (select (at_least j) xs) ≡ select (at_least k) xs
  select-select j k [] l = refl
  select-select j k (x ∷ xs) l = let rest = select-select j k xs l in ground arith

  -- The key after the last row of a page.
  abbrev pub key_after : ℕ → List A → ℕ
  key_after k [] = k
  key_after k (x ∷ xs) = key_after (suc (key x)) xs

  pub select-all : (k : ℕ) (xs : List A) → All (λ y. k ≤ key y) xs → select (at_least k) xs ≡ xs
  select-all k [] h = refl
  select-all k (x ∷ xs) h = let h0 = h.0 in let rest = select-all k xs h.1 in ground arith

  pub key_after-take :
      (n k : ℕ) (xs : List A) → Ascending xs → All (λ y. k ≤ key y) xs → k ≤ key_after k (take n xs)
  key_after-take zero k xs h b = omega arith
  key_after-take (suc n) k [] h b = omega arith
  key_after-take (suc n) k (x ∷ xs) h b =
      let b0 = b.0 in let rest = key_after-take n (suc (key x)) xs h.1 h.0 in omega arith

  -- The rows from the key after a page on are those that the page left out.
  pub take-select :
      (n k : ℕ) (xs : List A)
      → Ascending xs
      → All (λ y. k ≤ key y) xs
      → take n xs ++ select (at_least (key_after k (take n xs))) xs ≡ xs
  take-select zero k xs h b = select-all k xs b
  take-select (suc n) k [] h b = refl
  take-select (suc n) k (x ∷ xs) h b =
      let rest = take-select n (suc (key x)) xs h.1 h.0 in
      let above = key_after-take n (suc (key x)) xs h.1 h.0 in ground arith

  pub key_after-append :
      (k : ℕ) (xs ys : List A) → key_after k (xs ++ ys) ≡ key_after (key_after k xs) ys
  key_after-append k [] ys = refl
  key_after-append k (x ∷ xs) ys = key_after-append (suc (key x)) xs ys

  pub at_least-All : (k : ℕ) (xs : List A) → All (λ y. k ≤ key y) (select (at_least k) xs)
  at_least-All k [] = tt
  at_least-All k (x ∷ xs) = elim (Bool-cases (at_least k x)) [
    | inl t ↦ let here : k ≤ key x = ground arith in rw t (here, at_least-All k xs)
    | inr f ↦ rw f (at_least-All k xs)
  ]

module _ {ℓ} {A : Type ℓ} where
  pub take-short : (n : ℕ) (xs : List A) → length (take n xs) < n → take n xs ≡ xs
  take-short zero xs h = absurd (omega arith)
  take-short (suc n) [] h = refl
  take-short (suc n) (x ∷ xs) h = ap (◌∷◌ x) (take-short n xs (omega arith))

  pub length-select : (p : A → Bool) (xs : List A) → length (select p xs) ≤ length xs
  length-select p [] = omega arith
  length-select p (x ∷ xs) = ground (arith, length-select p xs)
