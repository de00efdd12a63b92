-- ===== src/Store/Evolve.antt =====
-- How a statement changes the table of runs: it moves rows along their lives and adds new ones, and
-- removes none.
use mathlib.Core.List.{map-append}
use jobsys.Base.{
  ℕ, ◌≡◌, refl, ap, ◌∙◌, Bool, true, false, Option, some, List, [], ◌∷◌, ◌++◌, map, arith, ◌==◌,
  find?, All, All-append, Bool-cases, inl, inr,
}
use jobsys.Base.Unique.{contains, Distinct}
use jobsys.Store.Models.{Run}
use jobsys.Store.Phase.{Moves, here, next, Moves-trans, phase, waiting}
use jobsys.Store.Rows.{RunStep, RunStep-refl, IsShaped, is_final}
use jobsys.Store.Runs.{occurrence, occurrence_eq}

abbrev pub ids : List Run → List ℕ
ids = map λ r. r.id

abbrev pub occurrences : List Run → List (ℕ × ℕ)
occurrences = map occurrence

-- A row that an INSERT may add: a new key, a new occurrence, a first attempt.
pub record IsNew (r : Run) (rs : List Run) : Type 0 where
  pub new_id : contains ◌==◌ r.id (ids rs) ≡ false
  pub new_occurrence : contains occurrence_eq (occurrence r) (occurrences rs) ≡ false
  pub first : phase r ≡ waiting 1
  pub shaped : IsShaped r

pub data Evolves : List Run → List Run → Type 0 where
  step :
      {rs ss : List Run} (g : Run → Run)
      → All (λ r. RunStep r (g r)) rs
      → ss ≡ map g rs
      → Evolves rs ss
  insert : {rs ss : List Run} (r : Run) → IsNew r rs → ss ≡ rs ++ r ∷ [] → Evolves rs ss
  seq : {rs ms ss : List Run} → Evolves rs ms → Evolves ms ss → Evolves rs ss

All-refl : (rs : List Run) → All (λ r. RunStep r r) rs
All-refl [] = tt
All-refl (r ∷ rs) = (RunStep-refl r, All-refl rs)

map-same : (rs : List Run) → rs ≡ map (λ r. r) rs
map-same [] = refl
map-same (r ∷ rs) = ap (◌∷◌ r) (map-same rs)

pub Evolves-refl : (rs : List Run) → Evolves rs rs
Evolves-refl rs = step (λ r. r) (All-refl rs) (map-same rs)

module _ {ℓ} {A : Type ℓ} (eq : A → A → Bool) where
  contains-append :
      (a b : A) (xs : List A)
      → contains eq a xs ≡ false
      → eq b a ≡ false
      → contains eq a (xs ++ b ∷ []) ≡ false
  contains-append a b [] h k = ground arith
  contains-append a b (x ∷ xs) h k = ground (arith, contains-append a b xs)

  -- A new value at the end of a column keeps it without repetition.
  Distinct-append :
      ((a b : A) → eq a b ≡ false → eq b a ≡ false)
      → (b : A) (xs : List A) → Distinct eq xs
      → contains eq b xs ≡ false
      → Distinct eq (xs ++ b ∷ [])
  Distinct-append swap b [] h k = (refl, tt)
  Distinct-append swap b (x ∷ xs) h k =
      let e : eq x b ≡ false = ground arith in
      (contains-append x b xs h.0 (swap x b e), Distinct-append swap b xs h.1 (ground arith))

ids-step : (g : Run → Run) (rs : List Run) → All (λ r. RunStep r (g r)) rs → ids (map g rs) ≡ ids rs
ids-step g [] h = refl
ids-step g (r ∷ rs) h = cc (h.0.same_id, ids-step g rs h.1)

occurrences-step :
    (g : Run → Run) (rs : List Run)
    → All (λ r. RunStep r (g r)) rs
    → occurrences (map g rs) ≡ occurrences rs
occurrences-step g [] h = refl
occurrences-step g (r ∷ rs) h = cc (h.0.same_job, h.0.same_time, occurrences-step g rs h.1)

-- The primary key stays unique.
pub Evolves-ids :
    {rs ss : List Run} → Evolves rs ss → Distinct ◌==◌ (ids rs) → Distinct ◌==◌ (ids ss)
Evolves-ids {rs} (step g h e) d = rw (e, ids-step g rs h) d
Evolves-ids {rs} (insert r n e) d =
    rw (e, map-append (λ (x : Run). x.id) rs (r ∷ []))
      (Distinct-append ◌==◌ (λ a b k. ground arith) r.id (ids rs) d n.new_id)
Evolves-ids (seq p q) d = Evolves-ids q (Evolves-ids p d)

-- No occurrence of a job has two runs.
pub Evolves-occurrences :
    {rs ss : List Run}
    → Evolves rs ss
    → Distinct occurrence_eq (occurrences rs)
    → Distinct occurrence_eq (occurrences ss)
Evolves-occurrences {rs} (step g h e) d = rw (e, occurrences-step g rs h) d
Evolves-occurrences {rs} (insert r n e) d =
    rw (e, map-append occurrence rs (r ∷ []))
      (Distinct-append occurrence_eq swap (occurrence r) (occurrences rs) d n.new_occurrence)
  where
    swap : (a b : ℕ × ℕ) → occurrence_eq a b ≡ false → occurrence_eq b a ≡ false
    swap a b k = ground arith
Evolves-occurrences (seq p q) d = Evolves-occurrences q (Evolves-occurrences p d)

IsShaped-step :
    (g : Run → Run) (rs : List Run)
    → All (λ r. RunStep r (g r)) rs
    → All IsShaped rs
    → All IsShaped (map g rs)
IsShaped-step g [] h s = tt
IsShaped-step g (r ∷ rs) h s = (h.0.shaped s.0, IsShaped-step g rs h.1 s.1)

pub Evolves-IsShaped : {rs ss : List Run} → Evolves rs ss → All IsShaped rs → All IsShaped ss
Evolves-IsShaped {rs} (step g h e) s = rw e (IsShaped-step g rs h s)
Evolves-IsShaped {rs} (insert r n e) s = rw e (All-append IsShaped rs (r ∷ []) s (n.shaped, tt))
Evolves-IsShaped (seq p q) s = Evolves-IsShaped q (Evolves-IsShaped p s)

-- A row's later state: the same run and occurrence, further along its life.
pub record Became (r s : Run) : Type 0 where
  pub same_id : s.id ≡ r.id
  pub same_job : s.job_id ≡ r.job_id
  pub same_time : s.scheduled_time ≡ r.scheduled_time
  pub moves : Moves (phase r) (phase s)
  pub frozen : is_final r.status ≡ true → s ≡ r

Became-trans : (r s t : Run) → Became r s → Became s t → Became r t
Became-trans r s t p q = record {
  same_id = q.same_id ∙ p.same_id;
  same_job = q.same_job ∙ p.same_job;
  same_time = q.same_time ∙ p.same_time;
  moves = Moves-trans p.moves q.moves;
  frozen = λ f. let e = p.frozen f in q.frozen (rw e f) ∙ e;
}

abbrev pub find_id : ℕ → List Run → Option Run
find_id id = find? λ r. r.id == id

find-step :
    (id : ℕ) (g : Run → Run) (rs : List Run) (r : Run)
    → All (λ x. RunStep x (g x)) rs
    → find_id id rs ≡ some r
    → (find_id id (map g rs) ≡ some (g r)) × RunStep r (g r)
find-step id g [] r h e = cc
find-step id g (x ∷ rs) r h e = elim (Bool-cases (x.id == id)) [
  | inl t ↦ let k : x ≡ r = ground arith in (ground (arith, h.0.same_id), rw k at (h.0))
  | inr f ↦ let (a, b) = find-step id g rs r h.1 (ground arith) in (ground (arith, h.0.same_id), b)
]

find-append :
    (id : ℕ) (r b : Run) (rs : List Run)
    → find_id id rs ≡ some r
    → find_id id (rs ++ b ∷ []) ≡ some r
find-append id r b [] e = cc
find-append id r b (x ∷ rs) e = ground (arith, find-append id r b rs)

-- Every row of the table is still there later, further along its life.
pub Evolves-find :
    {rs ss : List Run} (id : ℕ) (r : Run)
    → Evolves rs ss
    → find_id id rs ≡ some r
    → (s : Run) × (find_id id ss ≡ some s) × Became r s
Evolves-find {rs} id r (step g h e) f =
    let (found, moved) = find-step id g rs r h f in
    (
      g r,
      rw e found,
      record {
        same_id = moved.same_id;
        same_job = moved.same_job;
        same_time = moved.same_time;
        moves = next here moved.move;
        frozen = moved.frozen;
      },
    )
Evolves-find {rs} id r (insert b n e) f = (
  r,
  rw e (find-append id r b rs f),
  record { same_id = refl; same_job = refl; same_time = refl; moves = here; frozen = λ f. refl },
)
Evolves-find id r (seq p q) f =
    let (s, found, b) = Evolves-find id r p f in
    let (t, found', c) = Evolves-find id s q found in (t, found', Became-trans r s t b c)
