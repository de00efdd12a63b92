-- ===== src/Store/Firing.antt =====
-- What FireDueJobs does to the schedules: a job that has fired is not due again.
use jobsys.Base.{
  ℕ, zero, suc, ◌≤◌, ◌<◌, ◌≡◌, refl, ap, ◌∙◌, ◌⊎◌, inl, inr, String, Bool, true, false, not, ◌&&◌,
  ◌||◌, Option, none, some, List, [], ◌∷◌, map, arith, ◌==◌, if◌then◌else◌, select, take, sort_with,
  length, leb, All, Result, ok, err, Bool-cases,
}
use jobsys.Base.Sorting.{length-sort_with, take-all, names, names-sort_with}
use jobsys.Base.Columns.{All-map}
use jobsys.Base.Paging.{length-select}
use jobsys.Store.Models.{Job, Db, elapsed}
use jobsys.Store.Jobs.{update_job}
use jobsys.Store.Runs.{insert_run, has_occurrence}
use jobsys.Store.Worker.{time_or_zero}
use jobsys.Store.Schedule.{
  DueJob, Firing, due_job, due_jobs, is_due, advanced, advance, queue_occurrence, fire_job,
  fire_all, fire_due_jobs,
}
use jobsys.Store.Steps.{Result-cases}

-- Every answer of `next` lies after `now`.
abbrev pub IsLater : ℕ → (DueJob → Result String ℕ) → Type 0
IsLater now next = (d : DueJob) (t : ℕ) → next d ≡ ok t → now < t

abbrev pub due_id : DueJob → ℕ
due_id d = d.id

pub queued-jobs :
    (now id : ℕ) (d : DueJob) (s t : Firing)
    → queue_occurrence now id d s ≡ ok t
    → t.db.jobs ≡ s.db.jobs
unfolding queue_occurrence insert_run
queued-jobs now id d s t e = elim (Bool-cases (has_occurrence (d.id, d.next_run_at) s.db)) [
  | inl h ↦ ground arith
  | inr h ↦ ground arith
]

-- The UPDATE of a job's next_run_at, whether it applies to the row or not.
abbrev pub set_next : ℕ → ℕ → Option ℕ → Job → Job
set_next now id next j = if j.id == id then advanced now next j else j

abbrev pub no_one : ℕ → Bool
no_one id = false

module _ (now : ℕ) where
  -- Of the jobs, those that are due are among the ones still to fire.
  abbrev IsListed : List DueJob → Job → Type 0
  IsListed ds j = (is_due now j ≡ false) ⊎ (names due_id j.id ds ≡ true)

  IsListed-set_next :
      (d : DueJob) (ds : List DueJob) (next : Option ℕ) (js : List Job)
      → elapsed next now ≡ false
      → All (IsListed (d ∷ ds)) js
      → All (IsListed ds) (map (set_next now d.id next) js)
  IsListed-set_next d ds next [] e h = tt
  IsListed-set_next d ds next (j ∷ js) e h = (one, IsListed-set_next d ds next js e h.1)
    where
      one : IsListed ds (set_next now d.id next j)
      one = elim (Bool-cases (j.id == d.id)) [
        | inl t ↦ rw t (inl (ground arith))
        | inr f ↦ rw f (ground arith)
      ]

  module _ (new_id : DueJob → ℕ) (next : DueJob → Result String ℕ) (later : IsLater now next) where
    advance-IsListed :
        (d : DueJob) (ds : List DueJob) (s : Firing) (o : Result String ℕ)
        → next d ≡ o
        → All (IsListed (d ∷ ds)) s.db.jobs
        → All (IsListed ds) (advance now d o s).db.jobs
    unfolding advance update_job
    advance-IsListed d ds s (ok t) e h =
        let l = later d t e in IsListed-set_next d ds (some t) s.db.jobs (ground arith) h
    advance-IsListed d ds s (err x) e h = IsListed-set_next d ds none s.db.jobs refl h

    fire_all-IsListed :
        (ds : List DueJob) (s t : Firing)
        → fire_all now new_id next ds s ≡ ok t
        → All (IsListed ds) s.db.jobs
        → All (IsListed []) t.db.jobs
    unfolding fire_all fire_job
    fire_all-IsListed [] s t e h = let k : s ≡ t = ground arith in rw k at h
    fire_all-IsListed (d ∷ ds) s t e h = elim (Result-cases (queue_occurrence now (new_id d) d s)) [
      | inl (q, k) ↦
          let rest : fire_all now new_id next ds (advance now d (next d) q) ≡ ok t = rw k at e in
          let h' : All (IsListed (d ∷ ds)) q.db.jobs = rw (queued-jobs now (new_id d) d s q k) h in
          fire_all-IsListed ds (advance now d (next d) q) t rest
            (advance-IsListed d ds q (next d) refl h')
      | inr (x, k) ↦ let no : err x ≡ ok t = rw k at e in cc
    ]

  -- Selected rows are named by the selection.
  selected :
      (p : Job → Bool) (j : Job) (js : List Job)
      → All (λ x. (p x ≡ false) ⊎ (names (λ y. y.id) x.id (select p js) ≡ true)) js
      → All (λ x. (p x ≡ false) ⊎ (names (λ y. y.id) x.id (select p (j ∷ js)) ≡ true)) js
  selected p j js h = All-map _ _ more js h
    where
      more :
          (x : Job)
          → (p x ≡ false) ⊎ (names (λ y. y.id) x.id (select p js) ≡ true)
          → (p x ≡ false) ⊎ (names (λ y. y.id) x.id (select p (j ∷ js)) ≡ true)
      more x (inl e) = inl e
      more x (inr e) = inr (ground arith)

  select-named :
      (p : Job → Bool) (js : List Job)
      → All (λ x. (p x ≡ false) ⊎ (names (λ y. y.id) x.id (select p js) ≡ true)) js
  select-named p [] = tt
  select-named p (j ∷ js) = (one, selected p j js (select-named p js))
    where
      one : (p j ≡ false) ⊎ (names (λ y. y.id) j.id (select p (j ∷ js)) ≡ true)
      one = elim (Bool-cases (p j)) [ inl t ↦ inr (rw t (ground arith)) | inr f ↦ inl f ]

  pub names-due_job :
      (id : ℕ) (js : List Job) → names due_id id (map due_job js) ≡ names (λ y. y.id) id js
  names-due_job id [] = refl
  names-due_job id (j ∷ js) = ap (λ b. (j.id == id) || b) (names-due_job id js)

  start-IsListed :
      (limit : ℕ) (db : Db)
      → length db.jobs ≤ limit
      → All (IsListed (due_jobs now no_one limit db)) db.jobs
  unfolding due_jobs
  start-IsListed limit db room = All-map _ _ listed db.jobs (select-named p db.jobs)
    where
      p : Job → Bool
      p j = is_due now j && not (no_one j.id)

      le : Job → Job → Bool
      le a b = leb (time_or_zero a.next_run_at) (time_or_zero b.next_run_at)

      chosen : List Job
      chosen = select p db.jobs

      fits : length (sort_with le chosen) ≤ limit
      fits = omega (arith, length-sort_with le chosen, length-select p db.jobs)

      all_of :
          (id : ℕ)
          → names due_id id (map due_job (take limit (sort_with le chosen)))
            ≡ names (λ y. y.id) id chosen
      all_of id =
          names-due_job id (take limit (sort_with le chosen))
          ∙ ap (names (λ y. y.id) id) (take-all limit (sort_with le chosen) fits)
          ∙ names-sort_with (λ y. y.id) id le chosen

      listed :
          (x : Job)
          → (p x ≡ false) ⊎ (names (λ y. y.id) x.id chosen ≡ true)
          → (is_due now x ≡ false)
            ⊎ (names due_id x.id (map due_job (take limit (sort_with le chosen))) ≡ true)
      listed x (inl e) = inl (ground arith)
      listed x (inr e) = inr (all_of x.id ∙ e)

  none_due :
      (js : List Job)
      → All (IsListed []) js
      → select (λ j. is_due now j && not (no_one j.id)) js ≡ []
  none_due [] h = refl
  none_due (j ∷ js) h = let e : is_due now j ≡ false = ground arith in rw e (none_due js h.1)

  -- A FireDueJobs that has room for every job and finds none held by another scheduler: if `next`
  -- only answers times after now, then no job is due at that time once it has committed.
  pub fire_due_jobs-due_jobs :
      (new_id : DueJob → ℕ) (next : DueJob → Result String ℕ) (limit : ℕ) (db : Db) (t : Firing)
      → IsLater now next
      → length db.jobs ≤ limit
      → fire_due_jobs now new_id next no_one limit db ≡ ok t
      → (more : ℕ) → due_jobs now no_one more t.db ≡ []
  unfolding fire_due_jobs due_jobs sort_with
  fire_due_jobs-due_jobs new_id next limit db t later room e zero = refl
  fire_due_jobs-due_jobs new_id next limit db t later room e (suc more) =
      let h = fire_all-IsListed new_id next later _ _ t e (start-IsListed limit db room) in
      rw (none_due t.db.jobs h) refl
