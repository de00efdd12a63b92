-- ===== src/Store/Retry.antt =====
-- internal/store/retry.go: failed attempts, and the retries that have come due.
use mathlib.Core.List.{head?}
use mathlib.Core.Option
use jobsys.Base.{ℕ, ◌+◌, Bool, String, Option, none, some, List, if◌then◌else◌, ◌&&◌, select}
use jobsys.Store.Models.{Job, Run, Db, Status, queued, failed, is_queued, Redispatch, elapsed}
use jobsys.Store.Table.{join_jobs, lock_batch, update_batch, returning}
use jobsys.Store.Worker.{owns, exhausted, time_or_zero}

abbrev pub failed_or_retried : ℕ → String → ℕ → Job → Run → Run
failed_or_retried now message backoff j r =
    if exhausted j r
    then record r {
      status = failed;
      error = some message;
      finished_at = some now;
      next_attempt_at = none;
    }
    else record r {
      status = queued;
      attempt = r.attempt + 1;
      error = some message;
      finished_at = none;
      next_attempt_at = some (now + backoff);
      queued_at = now;
      worker_id = none;
      started_at = none;
      last_heartbeat_at = none;
    }

-- The common table expression `cur`.
abbrev pub owned_with_job : ℕ → String → ℕ → Db → List (Run × Job)
owned_with_job run_id worker_id attempt db =
    join_jobs db (select (owns run_id worker_id attempt) db.runs)

-- The status is `none` where the function returns "".
unfoldable pub fail_or_retry : ℕ → ℕ → String → ℕ → String → ℕ → Db → Db × Option Status
fail_or_retry now run_id worker_id attempt message backoff db =
    let cur = owned_with_job run_id worker_id attempt db in
    let f = failed_or_retried now message backoff in
    (update_batch cur f db, Option.map (λ rd. rd.status) (head? (returning cur f)))

abbrev pub is_due_retry : ℕ → Run → Bool
is_due_retry now r = is_queued r.status && elapsed r.next_attempt_at now

abbrev pub dispatched_retry : ℕ → Job → Run → Run
dispatched_retry now j r = record r { next_attempt_at = none; queued_at = now }

abbrev pub retry_batch : ℕ → (ℕ → Bool) → ℕ → Db → List (Run × Job)
retry_batch now locked = lock_batch locked (is_due_retry now) (λ r. time_or_zero r.next_attempt_at)

unfoldable pub due_retries : ℕ → (ℕ → Bool) → ℕ → Db → Db × List Redispatch
due_retries now locked limit db =
    let batch = retry_batch now locked limit db in
    (update_batch batch (dispatched_retry now) db, returning batch (dispatched_retry now))
