-- ===== src/Base/Unique.antt =====
-- Key columns without repetition, and what keeps them so.
use jobsys.Base.{◌≡◌, refl, arith, ◌++◌, Bool, false, ◌||◌, List, [], ◌∷◌}

module _ {ℓ} {A : Type ℓ} (eq : A → A → Bool) where
  abbrev pub contains : A → List A → Bool
  contains a [] = false
  contains a (x ∷ xs) = eq x a || contains a xs

  -- No value stands twice, as a unique index demands.
  abbrev pub Distinct : List A → Type 0
  Distinct [] = Unit {0}
  Distinct (x ∷ xs) = (contains x xs ≡ false) × Distinct xs

module _ {ℓ} {A : Type ℓ} (eq : A → A → Bool) where
  pub contains-append :
      (a : A) (xs ys : List A) → contains eq a (xs ++ ys) ≡ contains eq a xs || contains eq a ys
  contains-append a [] ys = refl
  contains-append a (x ∷ xs) ys = ground (arith, contains-append a xs ys)

  -- A new last element.
  pub Distinct-snoc :
      ((a b : A) → eq a b ≡ eq b a)
      → (b : A) (xs : List A) → contains eq b xs ≡ false
      → Distinct eq xs
      → Distinct eq (xs ++ b ∷ [])
  Distinct-snoc flip b [] new d = (refl, tt)
  Distinct-snoc flip b (x ∷ xs) new d = (
    ground (arith, contains-append x xs (b ∷ []), flip b x),
    Distinct-snoc flip b xs (ground arith) d.1,
  )

  contains-removed :
      (a y : A) (xs ys : List A)
      → contains eq a (xs ++ y ∷ ys) ≡ false
      → contains eq a (xs ++ ys) ≡ false
  contains-removed a y [] ys h = ground arith
  contains-removed a y (x ∷ xs) ys h = ground (arith, contains-removed a y xs ys)

  -- One element less.
  pub Distinct-removed :
      (y : A) (xs ys : List A) → Distinct eq (xs ++ y ∷ ys) → Distinct eq (xs ++ ys)
  Distinct-removed y [] ys h = h.1
  Distinct-removed y (x ∷ xs) ys h = (contains-removed x y xs ys h.0, Distinct-removed y xs ys h.1)
