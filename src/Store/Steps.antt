-- ===== src/Store/Steps.antt =====
-- Each statement of internal/store changes the table of runs as `Evolves` allows.
use jobsys.Base.{
  ℕ, ◌≡◌, refl, String, Bool, true, false, List, [], ◌∷◌, arith, All, if◌then◌else◌, Bool-cases,
  inl, inr, Result, ok, err, ◌⊎◌,
}
use jobsys.Store.Models.{Job, Run, Db, StoreError, Trigger, schedule, new_run}
use jobsys.Store.Table.{update, update_batch, lock_batch}
use jobsys.Store.Phase.{phase}
use jobsys.Store.Rows.{RunStep, RunStep-refl, IsShaped}
use jobsys.Store.Batches.{HasRunIds, IsEntry, lock_batch-IsEntry, update_batch-RunStep}
use jobsys.Base.Columns.{All-map}
use jobsys.Store.Evolve.{Evolves, step, insert, seq, Evolves-refl}
use jobsys.Store.Runs.{has_run, has_occurrence, has_job, insert_run}
use jobsys.Store.Schedule.{
  DueJob, Firing, queue_occurrence, advance, fire_job, fire_all, fire_due_jobs, due_jobs,
}
use jobsys.Store.Jobs.{update_job}

RunStep-All :
    (g : Run → Run) (rs : List Run) → ((r : Run) → RunStep r (g r)) → All (λ r. RunStep r (g r)) rs
RunStep-All g [] h = tt
RunStep-All g (r ∷ rs) h = (h r, RunStep-All g rs h)

-- UPDATE … WHERE p, if the change is a step of every row that satisfies `p`.
pub update-Evolves :
    (p : Run → Bool) (f : Run → Run) (db : Db)
    → ((r : Run) → p r ≡ true → RunStep r (f r))
    → Evolves db.runs (update p f db).runs
unfolding update
update-Evolves p f db h = step g (RunStep-All g db.runs each) refl
  where
    g : Run → Run
    g r = if p r then f r else r

    each : (r : Run) → RunStep r (g r)
    each r = elim (Bool-cases (p r)) [ inl e ↦ rw e (h r e) | inr e ↦ rw e (RunStep-refl r) ]

module _ (p : Run → Bool) (f : Job → Run → Run)
    (steps : (j : Job) (r : Run) → p r ≡ true → RunStep r (f j r)) (db : Db)
    (keyed : HasRunIds db) where
  -- The same for an UPDATE on a locked batch.
  pub lock_batch-Evolves :
      (locked : ℕ → Bool) (key : Run → ℕ) (limit : ℕ)
      → Evolves db.runs (update_batch (lock_batch locked p key limit db) f db).runs
  unfolding update_batch
  lock_batch-Evolves locked key limit =
      step _ (update_batch-RunStep db p f steps batch keyed entries) refl
    where
      batch : List (Run × Job)
      batch = lock_batch locked p key limit db

      entries : All (IsEntry db p) batch
      entries = All-map _ _ (λ e h. h.0) batch (lock_batch-IsEntry db locked p key limit keyed)

  -- And for the batch of one attempt.
  pub owned-Evolves :
      (cur : List (Run × Job))
      → All (IsEntry db p) cur
      → Evolves db.runs (update_batch cur f db).runs
  unfolding update_batch
  owned-Evolves cur entries = step _ (update_batch-RunStep db p f steps cur keyed entries) refl

pub new_run-IsShaped :
    (id job_id time : ℕ) (t : Trigger) (now : ℕ) → IsShaped (new_run id job_id time t now)
new_run-IsShaped id job_id time t now = ground arith

-- A row that the unique indexes let in.
pub insert_run-Evolves :
    (id job_id time : ℕ) (t : Trigger) (now : ℕ) (db : Db)
    → has_run id db ≡ false
    → has_occurrence (job_id, time) db ≡ false
    → Evolves db.runs (insert_run (new_run id job_id time t now) db).runs
unfolding insert_run phase
insert_run-Evolves id job_id time t now db h k =
    insert (new_run id job_id time t now)
      (record {
        new_id = h;
        new_occurrence = k;
        first = refl;
        shaped = new_run-IsShaped id job_id time t now;
      })
      refl

abbrev pub FiringEvolves : Db → Result StoreError Firing → Type 0
FiringEvolves db (ok s) = Evolves db.runs s.db.runs
FiringEvolves db (err e) = Unit {0}

queue_occurrence-Evolves :
    (now id : ℕ) (d : DueJob) (s : Firing) → FiringEvolves s.db (queue_occurrence now id d s)
unfolding queue_occurrence
queue_occurrence-Evolves now id d s =
    elim (Bool-cases (has_occurrence (d.id, d.next_run_at) s.db)) [
      | inl e ↦ rw e (Evolves-refl s.db.runs)
      | inr e ↦ elim (Bool-cases (has_run id s.db)) [
        | inl k ↦ rw (e, k) tt
        | inr k ↦ elim (Bool-cases (has_job d.id s.db)) [
          | inl j ↦ rw (e, k, j) (insert_run-Evolves id d.id d.next_run_at schedule now s.db k e)
          | inr j ↦ rw (e, k, j) tt
        ]
      ]
    ]

advance-runs :
    (now : ℕ) (d : DueJob) (o : Result String ℕ) (s : Firing)
    → (advance now d o s).db.runs ≡ s.db.runs
unfolding advance update_job
advance-runs now d (ok t) s = refl
advance-runs now d (err e) s = refl

pub Result-cases {ℓ κ} :
    {E : Type κ} {A : Type ℓ} (r : Result E A) → ((a : A) × (r ≡ ok a)) ⊎ ((e : E) × (r ≡ err e))
Result-cases (ok a) = inl (a, refl)
Result-cases (err e) = inr (e, refl)

module _ (now : ℕ) (new_id : DueJob → ℕ) (next : DueJob → Result String ℕ) where
  fire_job-Evolves : (d : DueJob) (s : Firing) → FiringEvolves s.db (fire_job now new_id next d s)
  unfolding fire_job
  fire_job-Evolves d s = elim (Result-cases (queue_occurrence now (new_id d) d s)) [
    | inl (t, e) ↦
        let h : Evolves s.db.runs t.db.runs =
          rw e at (queue_occurrence-Evolves now (new_id d) d s) in
        rw (e, fire_job) (rw (advance-runs now d (next d) t) h)
    | inr (x, e) ↦ rw (e, fire_job) tt
  ]

  fire_all-Evolves :
      (ds : List DueJob) (s : Firing) → FiringEvolves s.db (fire_all now new_id next ds s)
  unfolding fire_all
  fire_all-Evolves [] s = Evolves-refl s.db.runs
  fire_all-Evolves (d ∷ ds) s = elim (Result-cases (fire_job now new_id next d s)) [
    | inl (t, e) ↦
        let h : Evolves s.db.runs t.db.runs = rw e at (fire_job-Evolves d s) in
        rw e (go t h (fire_all now new_id next ds t) (fire_all-Evolves ds t))
    | inr (x, e) ↦ rw e tt
  ]
    where
      go :
          (t : Firing)
          → Evolves s.db.runs t.db.runs
          → (r : Result StoreError Firing) → FiringEvolves t.db r
          → FiringEvolves s.db r
      go t h (ok u) k = seq h k
      go t h (err e) k = tt

  pub fire_due_jobs-Evolves :
      (locked : ℕ → Bool) (limit : ℕ) (db : Db)
      → FiringEvolves db (fire_due_jobs now new_id next locked limit db)
  unfolding fire_due_jobs
  fire_due_jobs-Evolves locked limit db = fire_all-Evolves (due_jobs now locked limit db) _
