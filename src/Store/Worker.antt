-- ===== src/Store/Worker.antt =====
-- internal/store/worker.go: what a worker does to a run it executes, and the two passes that
-- recover runs.
use jobsys.Base.{
  ℕ, ◌==◌, ◌+◌, Bool, true, false, String, Option, none, some, List, [], ◌∷◌, if◌then◌else◌, ◌&&◌,
  ltb, is_text, decimal, ◌<>◌,
}
use mathlib.Core.List.{head?}
use jobsys.Store.Models.{
  Job, Run, Db, Status, queued, running, failed, is_queued, is_running, Redispatch, null_or_elapsed,
  older_than,
}
use jobsys.Store.Table.{update, updated, lock_batch, update_batch, returning}

abbrev pub claimable : ℕ → ℕ → Run → Bool
claimable now run_id r =
    r.id == run_id && (is_queued r.status && null_or_elapsed r.next_attempt_at now)

abbrev pub claimed : ℕ → String → Run → Run
claimed now worker_id r = record r {
  status = running;
  worker_id = some worker_id;
  started_at = some now;
  last_heartbeat_at = some now;
  finished_at = none;
  next_attempt_at = none;
}

-- The new table and the claimed run; `none` is the answer false.
unfoldable pub claim_run : ℕ → ℕ → String → Db → Db × Option Run
claim_run now run_id worker_id db =
    let p = claimable now run_id in
    let f = claimed now worker_id in (update p f db, head? (updated p f db))

-- The condition under which a worker may write about an attempt.
abbrev pub owns : ℕ → String → ℕ → Run → Bool
owns run_id worker_id attempt r =
    r.id == run_id
    && (is_text r.worker_id worker_id && (r.attempt == attempt && is_running r.status))

-- RowsAffected() == 1.
abbrev pub affected_one : List Run → Bool
affected_one (r ∷ []) = true
affected_one _ = false

-- The shape of Heartbeat, FinishRun and ReleaseRun: one UPDATE of the attempt that the worker owns.
unfoldable pub write_owned : ℕ → String → ℕ → (Run → Run) → Db → Db × Bool
write_owned run_id worker_id attempt f db =
    let p = owns run_id worker_id attempt in (update p f db, affected_one (updated p f db))

abbrev pub beaten : ℕ → Run → Run
beaten now r = record r { last_heartbeat_at = some now }

unfoldable pub heartbeat : ℕ → ℕ → String → ℕ → Db → Db × Bool
unfolding write_owned
heartbeat now run_id worker_id attempt = write_owned run_id worker_id attempt (beaten now)

abbrev pub finished : ℕ → Status → Option String → Option String → Run → Run
finished now status output error r = record r {
  status = status;
  output = output;
  error = error;
  finished_at = some now;
}

unfoldable pub finish_run :
    ℕ → ℕ → String → ℕ → Status → Option String → Option String → Db → Db × Bool
unfolding write_owned
finish_run now run_id worker_id attempt status output error =
    write_owned run_id worker_id attempt (finished now status output error)

abbrev pub released : ℕ → String → Run → Run
released now reason r = record r {
  status = queued;
  attempt = r.attempt + 1;
  worker_id = none;
  started_at = none;
  last_heartbeat_at = none;
  queued_at = now;
  error = some reason;
}

unfoldable pub release_run : ℕ → ℕ → String → ℕ → String → Db → Db × Bool
unfolding write_owned
release_run now run_id worker_id attempt reason =
    write_owned run_id worker_id attempt (released now reason)

-- r.attempt > j.max_retries
abbrev pub exhausted : Job → Run → Bool
exhausted j r = ltb j.max_retries r.attempt

-- format('attempt %s lost worker %s', …), where %s prints NULL as nothing.
abbrev pub text_or_empty : Option String → String
text_or_empty none = ""
text_or_empty (some s) = s

unfoldable pub lost_worker : Run → String
lost_worker r = "attempt " <> decimal r.attempt <> " lost worker " <> text_or_empty r.worker_id

abbrev pub reaped : ℕ → Job → Run → Run
reaped now j r =
    if exhausted j r
    then record r { status = failed; error = some (lost_worker r); finished_at = some now }
    else record r {
      status = queued;
      attempt = r.attempt + 1;
      error = some (lost_worker r);
      finished_at = none;
      queued_at = now;
      worker_id = none;
      started_at = none;
      last_heartbeat_at = none;
    }

abbrev pub is_stale : ℕ → ℕ → Run → Bool
is_stale now stale_after r = is_running r.status && older_than r.last_heartbeat_at stale_after now

abbrev pub time_or_zero : Option ℕ → ℕ
time_or_zero none = 0
time_or_zero (some t) = t

abbrev pub stale_batch : ℕ → (ℕ → Bool) → ℕ → ℕ → Db → List (Run × Job)
stale_batch now locked stale_after =
    lock_batch locked (is_stale now stale_after) (λ r. time_or_zero r.last_heartbeat_at)

unfoldable pub reap_stale : ℕ → (ℕ → Bool) → ℕ → ℕ → Db → Db × List Redispatch
reap_stale now locked stale_after limit db =
    let batch = stale_batch now locked stale_after limit db in
    (update_batch batch (reaped now) db, returning batch (reaped now))

abbrev pub requeued_now : ℕ → Job → Run → Run
requeued_now now j r = record r { queued_at = now }

abbrev pub is_forgotten : ℕ → ℕ → Run → Bool
is_forgotten now older r =
    is_queued r.status && (ltb (r.queued_at + older) now && null_or_elapsed r.next_attempt_at now)

abbrev pub forgotten_batch : ℕ → (ℕ → Bool) → ℕ → ℕ → Db → List (Run × Job)
forgotten_batch now locked older = lock_batch locked (is_forgotten now older) (λ r. r.queued_at)

unfoldable pub sweep_queued : ℕ → (ℕ → Bool) → ℕ → ℕ → Db → Db × List Redispatch
sweep_queued now locked older limit db =
    let batch = forgotten_batch now locked older limit db in
    (update_batch batch (requeued_now now) db, returning batch (requeued_now now))
