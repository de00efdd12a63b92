-- ===== src/Scheduler/Due.antt =====
-- How FireDueJobs changes the number of jobs that are due by a time ahead, its horizon.
use jobsys.Base.{
  ℕ, ◌≤◌, ◌<◌, ◌≡◌, refl, ap, inl, inr, String, true, false, Option, none, some, List, [], ◌∷◌, map,
  arith, select, length, Result, ok, err, Bool-cases,
}
use jobsys.Base.Sorting.{names}
use jobsys.Store.Models.{Job, elapsed}
use jobsys.Store.Jobs.{update_job}
use jobsys.Store.Schedule.{DueJob, Firing, is_due, advance, queue_occurrence, fire_job, fire_all}
use jobsys.Store.Firing.{IsLater, set_next, queued-jobs}
use jobsys.Store.Steps.{Result-cases}
use jobsys.Scheduler.{next}

module _ (horizon : ℕ) where
  -- The number of jobs that are due by the horizon.
  abbrev pub due_by : List Job → ℕ
  due_by js = length (select (is_due horizon) js)

  set_next-due_by :
      (now id : ℕ) (next : Option ℕ) (js : List Job)
      → elapsed next horizon ≡ false
      → due_by (map (set_next now id next) js) ≤ due_by js
  set_next-due_by now id next [] e = omega arith
  set_next-due_by now id next (j ∷ js) e = let h = set_next-due_by now id next js e in ground arith

  names-set_next :
      (now id : ℕ) (next : Option ℕ) (js : List Job)
      → elapsed next horizon ≡ false
      → names (λ j. j.id) id (select (is_due horizon) js) ≡ true
      → due_by (map (set_next now id next) js) < due_by js
  names-set_next now id next [] e n = absurd (ground arith)
  names-set_next now id next (j ∷ js) e n =
      let weak = set_next-due_by now id next js e in
      elim (Bool-cases (names (λ y. y.id) id (select (is_due horizon) js))) [
        | inl t ↦ let less = names-set_next now id next js e t in ground arith
        | inr f ↦ ground arith
      ]

  module _ (now : ℕ) (new_id : DueJob → ℕ) (next : DueJob → Result String ℕ)
      (later : IsLater horizon next) where
    advance-due_by :
        (d : DueJob) (s : Firing) (o : Result String ℕ)
        → next d ≡ o
        → due_by (advance now d o s).db.jobs ≤ due_by s.db.jobs
    unfolding advance update_job
    advance-due_by d s (ok t) e =
        let l = later d t e in set_next-due_by now d.id (some t) s.db.jobs (ground arith)
    advance-due_by d s (err x) e = set_next-due_by now d.id none s.db.jobs refl

    advance-named :
        (d : DueJob) (s : Firing) (o : Result String ℕ)
        → next d ≡ o
        → names (λ j. j.id) d.id (select (is_due horizon) s.db.jobs) ≡ true
        → due_by (advance now d o s).db.jobs < due_by s.db.jobs
    unfolding advance update_job
    advance-named d s (ok t) e n =
        let l = later d t e in names-set_next now d.id (some t) s.db.jobs (ground arith) n
    advance-named d s (err x) e n = names-set_next now d.id none s.db.jobs refl n

    fire_all-due_by :
        (ds : List DueJob) (s t : Firing)
        → fire_all now new_id next ds s ≡ ok t
        → due_by t.db.jobs ≤ due_by s.db.jobs
    unfolding fire_all fire_job
    fire_all-due_by [] s t e = let k : s ≡ t = ground arith in rw k (omega arith)
    fire_all-due_by (d ∷ ds) s t e = elim (Result-cases (queue_occurrence now (new_id d) d s)) [
      | inl (q, k) ↦
          let rest : fire_all now new_id next ds (advance now d (next d) q) ≡ ok t = rw k at e in
          let below = fire_all-due_by ds (advance now d (next d) q) t rest in
          let same = ap due_by (queued-jobs now (new_id d) d s q k) in
          let step = advance-due_by d q (next d) refl in omega arith
      | inr (x, k) ↦ let no : err x ≡ ok t = rw k at e in cc
    ]

    pub fire_all-named :
        (d : DueJob) (ds : List DueJob) (s t : Firing)
        → fire_all now new_id next (d ∷ ds) s ≡ ok t
        → names (λ j. j.id) d.id (select (is_due horizon) s.db.jobs) ≡ true
        → due_by t.db.jobs < due_by s.db.jobs
    unfolding fire_all fire_job
    fire_all-named d ds s t e n = elim (Result-cases (queue_occurrence now (new_id d) d s)) [
      | inl (q, k) ↦
          let rest : fire_all now new_id next ds (advance now d (next d) q) ≡ ok t = rw k at e in
          let below = fire_all-due_by ds (advance now d (next d) q) t rest in
          let jobs = queued-jobs now (new_id d) d s q k in
          let same = ap due_by jobs in
          let step = advance-named d q (next d) refl (rw jobs n) in omega arith
      | inr (x, k) ↦ let no : err x ≡ ok t = rw k at e in cc
    ]
