-- ===== src/Base/Members.antt =====
-- Membership in the lists that find? and map make.
use mathlib.Core.List.{Memᴰ}
use mathlib.Core.List.Memᴰ
use mathlib.Core.List.Memᴰ.{head, tail}
use jobsys.Base.{
  ◌≡◌, refl, ap, All, Bool, some, List, [], ◌∷◌, map, arith, find?, Bool-cases, inl, inr,
}

module _ {ℓ κ} {A : Type ℓ} {B : Type κ} where
  pub Memᴰ-map : {a : A} (f : A → B) (xs : List A) → Memᴰ a xs → Memᴰ (f a) (map f xs)
  Memᴰ-map f [] m = absurd (Memᴰ.not-nil m)
  Memᴰ-map f (x ∷ xs) (head e) = head (ap f e)
  Memᴰ-map f (x ∷ xs) (tail m) = tail (Memᴰ-map f xs m)

module _ {ℓ} {A : Type ℓ} where
  pub find?-Memᴰ : {a : A} (p : A → Bool) (xs : List A) → find? p xs ≡ some a → Memᴰ a xs
  find?-Memᴰ p [] e = cc
  find?-Memᴰ p (x ∷ xs) e = elim (Bool-cases (p x)) [
    | inl t ↦ head (ground arith)
    | inr f ↦ tail (find?-Memᴰ p xs (ground arith))
  ]

  pub Memᴰ-All {κ} : {a : A} (P : A → Type κ) (xs : List A) → All P xs → Memᴰ a xs → P a
  Memᴰ-All P [] h m = absurd (Memᴰ.not-nil m)
  Memᴰ-All P (x ∷ xs) h (head e) = rw e h.0
  Memᴰ-All P (x ∷ xs) h (tail m) = Memᴰ-All P xs h.1 m

module _ {ℓ κ} {A : Type ℓ} {B : Type κ} where
  pub Memᴰ-unmap :
      {b : B} (f : A → B) (xs : List A) → Memᴰ b (map f xs) → (a : A) × Memᴰ a xs × (b ≡ f a)
  Memᴰ-unmap f [] m = absurd (Memᴰ.not-nil m)
  Memᴰ-unmap f (x ∷ xs) (head e) = (x, head refl, e)
  Memᴰ-unmap f (x ∷ xs) (tail m) = let (a, there, e) = Memᴰ-unmap f xs m in (a, tail there, e)
