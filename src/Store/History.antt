-- ===== src/Store/History.antt =====
-- The statements of internal/store as the calls of a history: API replicas, schedulers and workers
-- run them in any order, each atomically (Postgres serialises the writers of a row).
use jobsys.Base.{ℕ, String, Bool, Option, none, some, List, [], ◌∷◌, Result, ok, err}
use jobsys.Store.Models.{NewJob, LogLine, Db, StoreError, succeeded}
use jobsys.Store.Jobs.{create_job, set_job_enabled}
use jobsys.Store.Runs.{create_manual_run, fail_queued_run}
use jobsys.Store.Worker.{claim_run, heartbeat, finish_run, release_run, reap_stale, sweep_queued}
use jobsys.Store.Retry.{fail_or_retry, due_retries}
use jobsys.Store.Schedule.{DueJob, fire_due_jobs}
use jobsys.Store.Logs.{append_logs}

-- The first ℕ of each is now(), where the statement reads it.
pub data Call : Type 0 where
  creates_job : ℕ → ℕ → NewJob → Call
  sets_enabled : ℕ → ℕ → Bool → Option ℕ → Call
  triggers : ℕ → ℕ → ℕ → Call
  fails_queued : ℕ → ℕ → String → Call
  claims : ℕ → ℕ → String → Call
  beats : ℕ → ℕ → String → ℕ → Call
  succeeds : ℕ → ℕ → String → ℕ → String → Call
  fails : ℕ → ℕ → String → ℕ → String → ℕ → Call
  releases : ℕ → ℕ → String → ℕ → String → Call
  reaps : ℕ → (ℕ → Bool) → ℕ → ℕ → Call
  retries : ℕ → (ℕ → Bool) → ℕ → Call
  sweeps : ℕ → (ℕ → Bool) → ℕ → ℕ → Call
  fires : ℕ → (DueJob → ℕ) → (DueJob → Result String ℕ) → (ℕ → Bool) → ℕ → Call
  appends : ℕ → ℕ → List LogLine → Call

-- A statement that fails changes nothing.
abbrev pub after {ℓ} : {A : Type ℓ} → Db → Result StoreError A → (A → Db) → Db
after db (ok a) f = f a
after db (err e) f = db

unfoldable pub exec : Call → Db → Db
exec (creates_job now id n) db = after db (create_job id now n db) (λ r. r.0)
exec (sets_enabled now id enabled next) db = (set_job_enabled now id enabled next db).0
exec (triggers now id job_id) db = after db (create_manual_run id job_id now db) (λ r. r.0)
exec (fails_queued now run_id reason) db = fail_queued_run now run_id reason db
exec (claims now run_id worker) db = (claim_run now run_id worker db).0
exec (beats now run_id worker attempt) db = (heartbeat now run_id worker attempt db).0
exec (succeeds now run_id worker attempt output) db =
    (finish_run now run_id worker attempt succeeded (some output) none db).0
exec (fails now run_id worker attempt message backoff) db =
    (fail_or_retry now run_id worker attempt message backoff db).0
exec (releases now run_id worker attempt reason) db =
    (release_run now run_id worker attempt reason db).0
exec (reaps now locked stale_after limit) db = (reap_stale now locked stale_after limit db).0
exec (retries now locked limit) db = (due_retries now locked limit db).0
exec (sweeps now locked older limit) db = (sweep_queued now locked older limit db).0
exec (fires now new_id next locked limit) db =
    after db (fire_due_jobs now new_id next locked limit db) (λ s. s.db)
exec (appends run_id attempt lines) db = after db (append_logs run_id attempt lines db) (λ d. d)

unfoldable pub exec_all : List Call → Db → Db
exec_all [] db = db
exec_all (c ∷ cs) db = exec_all cs (exec c db)

-- Before the first call.
abbrev pub empty_db : Db
empty_db = record { jobs = []; runs = []; logs = [] }
