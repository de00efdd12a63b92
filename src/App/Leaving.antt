-- ===== src/App/Leaving.antt =====
-- What a part of a process leaves open when it has ended.
use jobsys.Base.{◌≡◌, refl, ap, ◌∙◌, ◌⊎◌, inl, inr, String, true, some, List, [], ◌∷◌, ◌++◌}
use jobsys.App.Process.{
  Act, opens, closes, Resource, postgres, publisher, consumer, scheduler, listener, Ended, gave,
  failed, waiting, acting, deferred, and_then, same, held, held-append, held_then,
}

abbrev pub HasEnded : {A : Type 0} → Ended A → Type 0
HasEnded {A} e = ((a : A) × (e ≡ gave a)) ⊎ ((why : String) × (e ≡ failed why))

-- It has ended, and what was open has become what is open now.
abbrev pub Leaves : {A : Type 0} → List Resource → List Resource → List Act × Ended A → Type 0
Leaves before now x = HasEnded x.1 × (held x.0 before ≡ some now)

same_refl : (r : Resource) → same r r ≡ true
same_refl postgres = refl
same_refl publisher = refl
same_refl consumer = refl
same_refl scheduler = refl
same_refl listener = refl

closing :
    (acts : List Act) (r : Resource) (before now : List Resource)
    → held acts before ≡ some (r ∷ now)
    → held (acts ++ closes r ∷ []) before ≡ some now
unfolding held
closing acts r before now h =
    held-append acts (closes r ∷ []) before
    ∙ ap (held_then (closes r ∷ [])) h
    ∙ rw (same_refl r) refl

module _ {A : Type 0} where
  pub acting-Leaves :
      (r : Resource) (before now : List Resource) (x : List Act × Ended A)
      → Leaves (r ∷ before) now x
      → Leaves before now (acting (opens r) x)
  unfolding acting held
  acting-Leaves r before now (acts, outcome) h = h

  pub deferred-Leaves :
      (r : Resource) (before now : List Resource) (x : List Act × Ended A)
      → Leaves before (r ∷ now) x
      → Leaves before now (deferred (closes r) x)
  unfolding deferred
  deferred-Leaves r before now (acts, waiting) (e, h) = elim e [ inl (a, k) ↦ cc | inr (w, k) ↦ cc ]
  deferred-Leaves r before now (acts, gave a) (e, h) = (e, closing acts r before now h)
  deferred-Leaves r before now (acts, failed w) (e, h) = (e, closing acts r before now h)

  pub deferred-gave :
      (act : Act) (x : List Act × Ended A) (a : A) → (deferred act x).1 ≡ gave a → x.1 ≡ gave a
  unfolding deferred
  deferred-gave act (acts, waiting) a h = h
  deferred-gave act (acts, gave b) a h = h
  deferred-gave act (acts, failed w) a h = h

module _ {A B : Type 0} (next : A → List Act × Ended B) where
  -- A call that gave a value leaves `mid`, one that failed `now`.
  pub and_then-Leaves :
      (before mid now : List Resource) (x : List Act × Ended A)
      → (((a : A) × (x.1 ≡ gave a) × (held x.0 before ≡ some mid))
          ⊎ ((why : String) × (x.1 ≡ failed why) × (held x.0 before ≡ some now)))
      → ((a : A) → Leaves mid now (next a))
      → Leaves before now (and_then x next)
  unfolding and_then
  and_then-Leaves before mid now (acts, waiting) h k = elim h [
    | inl (a, e, _) ↦ cc
    | inr (w, e, _) ↦ cc
  ]
  and_then-Leaves before mid now (acts, failed w) h k = elim h [
    | inl (a, e, _) ↦ cc
    | inr (w', e, left) ↦ (inr (w, refl), left)
  ]
  and_then-Leaves before mid now (acts, gave a) h k = elim h [
    | inr (w, e, _) ↦ cc
    | inl (b, e, left) ↦
        ((k a).0, held-append acts (next a).0 before ∙ ap (held_then (next a).0) left ∙ (k a).1)
  ]

  pub and_then-gave :
      (x : List Act × Ended A) (b : B)
      → (and_then x next).1 ≡ gave b
      → (a : A) × (x.1 ≡ gave a) × ((next a).1 ≡ gave b)
  unfolding and_then
  and_then-gave (acts, waiting) b h = cc
  and_then-gave (acts, failed w) b h = cc
  and_then-gave (acts, gave a) b h = (a, refl, h)
