-- ===== src/Store/Lifecycle.antt =====
-- What holds of the runs after any history of calls.
use jobsys.Base.{ℕ, ◌≡◌, refl, some, List, [], ◌∷◌, arith, Bool-cases, inl, inr, Result, ok, err}
use jobsys.Store.Models.{NewJob, Db, StoreError, manual, LogLine}
use jobsys.Store.Jobs.{create_job, set_job_enabled}
use jobsys.Store.Runs.{create_manual_run, fail_queued_run, has_run, has_occurrence, has_job}
use jobsys.Store.Worker.{
  claim_run, heartbeat, finish_run, release_run, reap_stale, sweep_queued, owns, is_stale,
  is_forgotten,
}
use jobsys.Store.Retry.{fail_or_retry, due_retries, is_due_retry}
use jobsys.Store.Schedule.{Firing, fire_due_jobs}
use jobsys.Store.Logs.{append_logs}
use jobsys.Store.Batches.{HasRunIds, owned_with_job-IsEntry}
use jobsys.Store.Evolve.{Evolves, seq, Evolves-refl, Evolves-ids}
use jobsys.Store.Steps.{
  update-Evolves, lock_batch-Evolves, owned-Evolves, insert_run-Evolves, fire_due_jobs-Evolves,
  FiringEvolves,
}
use jobsys.Store.Rows
use jobsys.Store.Rows.{RunStep, IsShaped}
use jobsys.Store.History.{
  Call, creates_job, sets_enabled, triggers, fails_queued, claims, beats, succeeds, fails, releases,
  reaps, retries, sweeps, fires, appends, exec, exec_all, after,
}

trigger-Evolves :
    (now id job_id : ℕ) (db : Db)
    → Evolves db.runs (after db (create_manual_run id job_id now db) (λ r. r.0)).runs
unfolding create_manual_run
trigger-Evolves now id job_id db = elim (Bool-cases (has_run id db)) [
  | inl h ↦ rw h (Evolves-refl db.runs)
  | inr h ↦ elim (Bool-cases (has_occurrence (job_id, now) db)) [
    | inl k ↦ rw (h, k) (Evolves-refl db.runs)
    | inr k ↦ elim (Bool-cases (has_job job_id db)) [
      | inl j ↦ rw (h, k, j) (insert_run-Evolves id job_id now manual now db h k)
      | inr j ↦ rw (h, k, j) (Evolves-refl db.runs)
    ]
  ]
]

fire-Evolves :
    (db : Db) (r : Result StoreError Firing)
    → FiringEvolves db r
    → Evolves db.runs (after db r (λ s. s.db)).runs
fire-Evolves db (ok s) h = h
fire-Evolves db (err e) h = Evolves-refl db.runs

create-runs :
    (id now : ℕ) (n : NewJob) (db : Db)
    → (after db (create_job id now n db) (λ r. r.0)).runs ≡ db.runs
unfolding create_job
create-runs id now n db = ground arith

append-runs :
    (run_id attempt : ℕ) (lines : List LogLine) (db : Db)
    → (after db (append_logs run_id attempt lines db) (λ d. d)).runs ≡ db.runs
unfolding append_logs
append-runs run_id attempt [] db = refl
append-runs run_id attempt (l ∷ ls) db = ground arith

exec-Evolves : (c : Call) (db : Db) → HasRunIds db → Evolves db.runs (exec c db).runs
unfolding exec set_job_enabled fail_queued_run claim_run heartbeat finish_run release_run reap_stale
    due_retries sweep_queued fail_or_retry
exec-Evolves (creates_job now id n) db h = rw (create-runs id now n db) (Evolves-refl db.runs)
exec-Evolves (sets_enabled now id enabled next) db h = Evolves-refl db.runs
exec-Evolves (triggers now id job_id) db h = trigger-Evolves now id job_id db
exec-Evolves (fails_queued now run_id reason) db h =
    update-Evolves _ _ db (Rows.undispatched-RunStep now run_id reason)
exec-Evolves (claims now run_id worker) db h =
    update-Evolves _ _ db (Rows.claimed-RunStep now run_id worker)
exec-Evolves (beats now run_id worker attempt) db h =
    update-Evolves _ _ db (Rows.beaten-RunStep now run_id worker attempt)
exec-Evolves (succeeds now run_id worker attempt output) db h =
    update-Evolves _ _ db (Rows.finished-RunStep now run_id worker attempt (some output))
exec-Evolves (fails now run_id worker attempt message backoff) db h =
    owned-Evolves (owns run_id worker attempt) _
      (Rows.failed_or_retried-RunStep now run_id worker attempt message backoff) db h _
      (owned_with_job-IsEntry db (owns run_id worker attempt) h)
exec-Evolves (releases now run_id worker attempt reason) db h =
    update-Evolves _ _ db (Rows.released-RunStep now run_id worker attempt reason)
exec-Evolves (reaps now locked stale_after limit) db h =
    lock_batch-Evolves (is_stale now stale_after) _ (Rows.reaped-RunStep now stale_after) db h
      locked _ limit
exec-Evolves (retries now locked limit) db h =
    lock_batch-Evolves (is_due_retry now) _ (Rows.dispatched_retry-RunStep now) db h locked _ limit
exec-Evolves (sweeps now locked older limit) db h =
    lock_batch-Evolves (is_forgotten now older) _ (Rows.requeued_now-RunStep now older) db h locked
      _ limit
exec-Evolves (fires now new_id next locked limit) db h =
    fire-Evolves db (fire_due_jobs now new_id next locked limit db)
      (fire_due_jobs-Evolves now new_id next locked limit db)
exec-Evolves (appends run_id attempt lines) db h =
    rw (append-runs run_id attempt lines db) (Evolves-refl db.runs)

pub exec_all-Evolves :
    (cs : List Call) (db : Db) → HasRunIds db → Evolves db.runs (exec_all cs db).runs
unfolding exec_all
exec_all-Evolves [] db h = Evolves-refl db.runs
exec_all-Evolves (c ∷ cs) db h =
    let first = exec-Evolves c db h in
    seq first (exec_all-Evolves cs (exec c db) (Evolves-ids first h))
