-- ===== src/Store/Schedule.antt =====
-- internal/store/schedule.go: FireDueJobs, one transaction. What the database refuses undoes all
-- of it, which the result `err` stands for.
use jobsys.Base.{
  ℕ, String, Bool, true, false, Option, none, some, List, [], ◌∷◌, ◌++◌, map, ◌&&◌, not, select,
  take, sort_by, if◌then◌else◌, Result, ok, err, ◌>>=◌,
}
use jobsys.Store.Models.{
  Job, Run, Db, Redispatch, StoreError, unique_violation, foreign_key_violation, schedule, elapsed,
  new_run,
}
use jobsys.Store.Jobs.{update_job}
use jobsys.Store.Runs.{has_run, has_occurrence, has_job, insert_run}
use jobsys.Store.Worker.{text_or_empty, time_or_zero}

pub record DueJob : Type 0 where
  pub id : ℕ
  pub type : String
  pub cron_expr : String
  pub timezone : String
  pub next_run_at : ℕ

abbrev pub is_scheduled : Option String → Bool
is_scheduled none = false
is_scheduled (some expr) = true

abbrev pub is_due : ℕ → Job → Bool
is_due now j = j.enabled && (is_scheduled j.cron_expr && elapsed j.next_run_at now)

-- The columns that the SELECT reads; `is_due` keeps NULL out of them.
abbrev pub due_job : Job → DueJob
due_job j = record {
  id = j.id;
  type = j.type;
  cron_expr = text_or_empty j.cron_expr;
  timezone = j.timezone;
  next_run_at = time_or_zero j.next_run_at;
}

unfoldable pub due_jobs : ℕ → (ℕ → Bool) → ℕ → Db → List DueJob
due_jobs now locked limit db = map due_job (
    take limit (
      sort_by (λ j. time_or_zero j.next_run_at)
        (select (λ j. is_due now j && not (locked j.id)) db.jobs)))

-- The transaction's view of the tables, the runs queued so far and the errors of `next` so far, with the
-- job each is about.
pub record Firing : Type 0 where
  pub db : Db
  pub fired : List Redispatch
  pub next_errors : List (ℕ × String)

abbrev pub fired_run : Run → DueJob → Redispatch
fired_run r d = record {
  run_id = r.id;
  job_id = d.id;
  job_type = d.type;
  status = r.status;
  attempt = r.attempt;
}

-- INSERT … ON CONFLICT ON CONSTRAINT job_runs_occurrence_uniq DO NOTHING.
unfoldable pub queue_occurrence : ℕ → ℕ → DueJob → Firing → Result StoreError Firing
queue_occurrence now id d s =
    let r = new_run id d.id d.next_run_at schedule now in
    if has_occurrence (d.id, d.next_run_at) s.db
    then ok s
    else if has_run id s.db
    then err unique_violation
    else if has_job d.id s.db
    then ok (record s { db = insert_run r s.db; fired = s.fired ++ fired_run r d ∷ [] })
    else err foreign_key_violation

abbrev pub advanced : ℕ → Option ℕ → Job → Job
advanced now next j = record j { next_run_at = next; updated_at = now }

-- UPDATE jobs SET next_run_at: to the answer of `next`, or to NULL where it fails.
unfoldable pub advance : ℕ → DueJob → Result String ℕ → Firing → Firing
advance now d (ok t) s = record s { db = update_job d.id (advanced now (some t)) s.db }
advance now d (err e) s = record s {
  db = update_job d.id (advanced now none) s.db;
  next_errors = s.next_errors ++ (d.id, e) ∷ [];
}

module _ (now : ℕ) (new_id : DueJob → ℕ) (next : DueJob → Result String ℕ) where
  unfoldable pub fire_job : DueJob → Firing → Result StoreError Firing
  fire_job d s = do queued ← queue_occurrence now (new_id d) d s; ok (advance now d (next d) queued)

  unfoldable pub fire_all : List DueJob → Firing → Result StoreError Firing
  fire_all [] s = ok s
  fire_all (d ∷ ds) s = do s' ← fire_job d s; fire_all ds s'

  unfoldable pub fire_due_jobs : (ℕ → Bool) → ℕ → Db → Result StoreError Firing
  fire_due_jobs locked limit db =
      fire_all (due_jobs now locked limit db) (record { db = db; fired = []; next_errors = [] })
