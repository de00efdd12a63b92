-- ===== src/Store/Batches.antt =====
-- The batches that a locking SELECT hands to an UPDATE: what their entries satisfy, and that the
-- UPDATE changes no other row.
use jobsys.Base.{
  ℕ, ◌≡◌, Bool, true, false, some, List, [], ◌∷◌, map, arith, ◌==◌, ◌&&◌, not, select, find?,
  sort_with, All, Bool-cases, Option-cases, inl, inr, leb,
}
use jobsys.Base.Unique.{Distinct}
use jobsys.Base.Columns.{
  All-select, All-take, All-sort_with, All-find?, find?-satisfies, select-satisfies, All-both,
  All-map, find?-self,
}
use jobsys.Store.Models.{Job, Run, Db}
use jobsys.Store.Table.{find_job, find_run, join_jobs, lock_batch, in_batch, apply_entry}
use jobsys.Store.Rows.{RunStep, RunStep-refl}

-- The primary key of job_runs.
abbrev pub HasRunIds : Db → Type 0
HasRunIds db = Distinct ◌==◌ (map (λ r. r.id) db.runs)

module _ (db : Db) where
  -- A row of the table satisfies `p`, and the job beside it is its own.
  abbrev pub IsEntry : (Run → Bool) → Run × Job → Type 0
  IsEntry p e =
      (find_run e.0.id db ≡ some e.0) × (find_job e.0.job_id db ≡ some e.1) × (p e.0 ≡ true)

  abbrev pub IsRow : Run → Type 0
  IsRow r = find_run r.id db ≡ some r

  pub rows-IsRow : HasRunIds db → All IsRow db.runs
  unfolding find_run
  rows-IsRow h = find?-self (λ r. r.id) db.runs h

  abbrev IsJoined : Run × Job → Type 0
  IsJoined e = (find_run e.0.id db ≡ some e.0) × (find_job e.0.job_id db ≡ some e.1)

  joined : (rs : List Run) → All IsRow rs → All IsJoined (join_jobs db rs)
  unfolding join_jobs
  joined [] h = tt
  joined (r ∷ rs) h = elim (Option-cases (find_job r.job_id db)) [
    | inl e ↦ rw e (joined rs h.1)
    | inr (j, e) ↦ rw e ((h.0, e), joined rs h.1)
  ]

  pub lock_batch-IsEntry :
      (locked : ℕ → Bool) (p : Run → Bool) (key : Run → ℕ) (limit : ℕ)
      → HasRunIds db
      → All (λ e. IsEntry p e × (locked e.0.id ≡ false)) (lock_batch locked p key limit db)
  unfolding lock_batch
  lock_batch-IsEntry locked p key limit h = All-take P limit (sort_with le chosen) (
      All-sort_with P le chosen (
        All-map _ P entry chosen (
          All-both _ _ chosen (All-select IsJoined q all (joined db.runs (rows-IsRow h)))
            (select-satisfies q all))))
    where
      P : Run × Job → Type 0
      P e = IsEntry p e × (locked e.0.id ≡ false)

      q : Run × Job → Bool
      q e = p e.0 && not (locked e.0.id)

      le : Run × Job → Run × Job → Bool
      le a b = leb (key a.0) (key b.0)

      all : List (Run × Job)
      all = join_jobs db db.runs

      chosen : List (Run × Job)
      chosen = select q all

      entry : (e : Run × Job) → IsJoined e × (q e ≡ true) → P e
      entry e h = ((h.0.0, h.0.1, ground arith), ground arith)

  joined_select :
      (p : Run → Bool) (rs : List Run) → All IsRow rs → All (IsEntry p) (join_jobs db (select p rs))
  unfolding join_jobs
  joined_select p [] h = tt
  joined_select p (r ∷ rs) h = elim (Bool-cases (p r)) [
    | inr f ↦ rw f (joined_select p rs h.1)
    | inl t ↦ elim (Option-cases (find_job r.job_id db)) [
      | inl e ↦ rw (t, e) (joined_select p rs h.1)
      | inr (j, e) ↦ rw (t, e) ((h.0, e, t), joined_select p rs h.1)
    ]
  ]

  pub owned_with_job-IsEntry :
      (p : Run → Bool) → HasRunIds db → All (IsEntry p) (join_jobs db (select p db.runs))
  owned_with_job-IsEntry p h = joined_select p db.runs (rows-IsRow h)

  -- A batch whose entries satisfy `p` changes a row by a step, if `f` does where `p` holds.
  module _ (p : Run → Bool) (f : Job → Run → Run)
      (steps : (j : Job) (r : Run) → p r ≡ true → RunStep r (f j r)) where
    entry-RunStep :
        (batch : List (Run × Job))
        → All (IsEntry p) batch
        → (r : Run) → IsRow r
        → RunStep r (apply_entry f r (in_batch batch r.id))
    unfolding in_batch
    entry-RunStep batch h r row = elim (Option-cases (find? (λ e. e.0.id == r.id) batch)) [
      | inl e ↦ rw e (RunStep-refl r)
      | inr (e, found) ↦
          let entry : IsEntry p e = All-find? (IsEntry p) _ batch e found h in
          let same : (e.0.id == r.id) ≡ true = find?-satisfies _ batch e found in
          let id : e.0.id ≡ r.id = ground arith in
          let k : e.0 ≡ r = cc in rw found (steps e.1 r (rw k at (entry.2)))
    ]

    pub update_batch-RunStep :
        (batch : List (Run × Job))
        → HasRunIds db
        → All (IsEntry p) batch
        → All (λ r. RunStep r (apply_entry f r (in_batch batch r.id))) db.runs
    update_batch-RunStep batch h es =
        All-map IsRow _ (entry-RunStep batch es) db.runs (rows-IsRow h)
