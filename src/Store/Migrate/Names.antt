-- ===== src/Store/Migrate/Names.antt =====
-- Lists of the names of files: sorting, and what is not recorded yet.
use jobsys.Base.{
  ◌≡◌, refl, sym, ap, ◌∙◌, String, true, false, ◌||◌, not, List, [], ◌∷◌, ◌++◌, text_eq, select,
  sort_with, insert_by, Bool-cases, inl, inr, arith, eq_iff,
}
use jobsys.Base.Unique.{contains-append, contains, Distinct}
use jobsys.Store.Migrate.{is_recorded, text_leb}

pub flip-text_eq : (a b : String) → text_eq a b ≡ text_eq b a
flip-text_eq a b = elim (Bool-cases (text_eq a b)) [
  | inl t ↦ let back : text_eq b a ≡ true = (eq_iff b a).1 (sym ((eq_iff a b).0 t)) in t ∙ sym back
  | inr f ↦ elim (Bool-cases (text_eq b a)) [
    | inl t ↦ let there : text_eq a b ≡ true = (eq_iff a b).1 (sym ((eq_iff b a).0 t)) in cc
    | inr g ↦ f ∙ sym g
  ]
]

contains-insert_by :
    (a b : String) (xs : List String)
    → contains text_eq a (insert_by text_leb b xs) ≡ text_eq b a || contains text_eq a xs
unfolding insert_by
contains-insert_by a b [] = refl
contains-insert_by a b (x ∷ xs) = ground (arith, contains-insert_by a b xs)

Distinct-insert_by :
    (b : String) (xs : List String)
    → contains text_eq b xs ≡ false
    → Distinct text_eq xs
    → Distinct text_eq (insert_by text_leb b xs)
unfolding insert_by
Distinct-insert_by b [] new d = (refl, tt)
Distinct-insert_by b (x ∷ xs) new d = elim (Bool-cases (text_leb b x)) [
  | inl t ↦ rw t (new, d)
  | inr f ↦ rw f (
    ground (arith, contains-insert_by x b xs, flip-text_eq b x),
    Distinct-insert_by b xs (ground arith) d.1,
  )
]

contains-sort_with :
    (a : String) (xs : List String)
    → contains text_eq a (sort_with text_leb xs) ≡ contains text_eq a xs
unfolding sort_with
contains-sort_with a [] = refl
contains-sort_with a (x ∷ xs) =
    contains-insert_by a x (sort_with text_leb xs)
    ∙ ap (λ b. text_eq x a || b) (contains-sort_with a xs)

pub Distinct-sort_with :
    (xs : List String) → Distinct text_eq xs → Distinct text_eq (sort_with text_leb xs)
unfolding sort_with
Distinct-sort_with [] d = tt
Distinct-sort_with (x ∷ xs) d =
    Distinct-insert_by x (sort_with text_leb xs) (contains-sort_with x xs ∙ d.0)
      (Distinct-sort_with xs d.1)

-- The names that are not recorded.
abbrev pub missing : List String → List String → List String
missing versions = select λ n. not (is_recorded n versions)

pub missing-snoc :
    (name : String) (versions names : List String)
    → contains text_eq name names ≡ false
    → missing (versions ++ name ∷ []) names ≡ missing versions names
missing-snoc name versions [] h = refl
missing-snoc name versions (n ∷ names) h =
    let rest = missing-snoc name versions names (ground arith) in
    let other : text_eq name n ≡ false = flip-text_eq name n ∙ ground arith in
    let same : is_recorded n (versions ++ name ∷ []) ≡ is_recorded n versions =
      contains-append text_eq n versions (name ∷ []) ∙ rw other (ground arith) in
    rw (same, rest) refl
