-- ===== src/Store/Keyed.antt =====
-- A statement that names one run by its id, on a table whose ids are unique.
use jobsys.Base.{
  ℕ, ◌≡◌, refl, ◌∙◌, Bool, true, false, none, some, List, [], ◌∷◌, map, arith, ◌==◌, ◌&&◌, select,
  if◌then◌else◌, Bool-cases, inl, inr,
}
use jobsys.Base.Columns.{find?-satisfies}
use jobsys.Base.Unique.{contains, Distinct}
use jobsys.Store.Models.{Job, Run, Db}
use jobsys.Store.Table.{
  update, updated, find_run, find_job, join_jobs, update_batch, in_batch, apply_entry,
}
use jobsys.Store.Batches.{HasRunIds}
use jobsys.Store.Evolve.{ids, find_id}

select-absent :
    (id : ℕ) (q : Run → Bool) (rs : List Run)
    → contains ◌==◌ id (ids rs) ≡ false
    → select (λ x. x.id == id && q x) rs ≡ []
select-absent id q [] h = refl
select-absent id q (x ∷ rs) h = ground (arith, select-absent id q rs)

-- WHERE id = $1 AND q selects the run of that id, if it satisfies q.
select-key :
    (id : ℕ) (q : Run → Bool) (rs : List Run) (r : Run)
    → Distinct ◌==◌ (ids rs)
    → find_id id rs ≡ some r
    → select (λ x. x.id == id && q x) rs ≡ (if q r then r ∷ [] else [])
select-key id q [] r d e = cc
select-key id q (x ∷ rs) r d e = elim (Bool-cases (x.id == id)) [
  | inl t ↦
      let k : x ≡ r = ground arith in
      let i : x.id ≡ id = ground arith in
      let rest : select (λ y. y.id == id && q y) rs ≡ [] = select-absent id q rs (rw i at (d.0)) in
      rw (t, rest, k) refl
  | inr f ↦ rw f (select-key id q rs r d.1 (ground arith))
]

pub find-map :
    (id : ℕ) (g : Run → Run) (rs : List Run) (r : Run)
    → ((x : Run) → (g x).id ≡ x.id)
    → find_id id rs ≡ some r
    → find_id id (map g rs) ≡ some (g r)
find-map id g [] r h e = cc
find-map id g (x ∷ rs) r h e = ground (arith, h x, find-map id g rs r h)

module _ (id : ℕ) (q : Run → Bool) (f : Run → Run) (db : Db) (r : Run) (keyed : HasRunIds db)
    (found : find_run id db ≡ some r) where
  -- The rows that UPDATE … WHERE id = $1 AND q RETURNING hands back.
  pub updated-key : updated (λ x. x.id == id && q x) f db ≡ (if q r then f r ∷ [] else [])
  unfolding updated find_run
  updated-key = elim (Bool-cases (q r)) [
    | inl e ↦ rw (select-key id q db.runs r keyed found, e) refl
    | inr e ↦ rw (select-key id q db.runs r keyed found, e) refl
  ]

  -- And what it leaves under that id.
  pub find-update-key :
      ((x : Run) → (f x).id ≡ x.id)
      → find_run id (update (λ x. x.id == id && q x) f db) ≡ some (if q r then f r else r)
  unfolding update find_run
  find-update-key h =
      find-map id (λ x. if (x.id == id && q x) then f x else x) db.runs r keeps found ∙ guard
    where
      keeps : (x : Run) → (if (x.id == id && q x) then f x else x).id ≡ x.id
      keeps x = ground (arith, h x)

      guard : some (if (r.id == id && q r) then f r else r) ≡ some (if q r then f r else r)
      guard =
          let t : (r.id == id) ≡ true = find?-satisfies (λ x. x.id == id) db.runs r found in
          rw t refl

-- The joined rows of FailOrRetry's `cur`: the named run beside its job.
pub joined-key :
    (id : ℕ) (q : Run → Bool) (db : Db) (r : Run) (j : Job)
    → HasRunIds db
    → find_run id db ≡ some r
    → find_job r.job_id db ≡ some j
    → q r ≡ true
    → join_jobs db (select (λ x. x.id == id && q x) db.runs) ≡ (r, j) ∷ []
unfolding find_run join_jobs
joined-key id q db r j keyed found job t = rw (select-key id q db.runs r keyed found, t, job) refl

-- An UPDATE on a batch of one run leaves its new row under its id.
pub find-update_batch-one :
    (id : ℕ) (f : Job → Run → Run) (db : Db) (r : Run) (j : Job)
    → find_run id db ≡ some r
    → ((x : Run) → (f j x).id ≡ x.id)
    → find_run id (update_batch ((r, j) ∷ []) f db) ≡ some (f j r)
unfolding find_run update_batch in_batch
find-update_batch-one id f db r j found h = find-map id g db.runs r keeps found ∙ guard
  where
    g : Run → Run
    g x = apply_entry f x (if r.id == x.id then some (r, j) else none)

    keeps : (x : Run) → (g x).id ≡ x.id
    keeps x = ground (arith, h x)

    guard : some (g r) ≡ some (f j r)
    guard = ground arith
