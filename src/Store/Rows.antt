-- ===== src/Store/Rows.antt =====
-- One row of job_runs: its well-formedness, and that each statement moves it along its life.
use jobsys.Base.{
  ℕ, ◌≤◌, ◌≡◌, refl, ◌≢◌, inl, inr, String, Option, none, some, arith, Bool, true, false, ◌==◌,
  ◌&&◌, Bool-cases,
}
use jobsys.Store.Models.{
  Job, Status, queued, running, succeeded, failed, cancelled, Run, is_running, is_queued,
}
use jobsys.Store.Phase.{Move, stay, start, end, requeue, drop, phase, waiting, executing}
use jobsys.Store.Runs.{undispatched}
use jobsys.Store.Worker.{
  claimable, claimed, beaten, finished, released, reaped, requeued_now, exhausted, is_stale,
  is_forgotten, owns,
}
use jobsys.Store.Retry.{failed_or_retried, dispatched_retry, is_due_retry}

abbrev pub is_set {ℓ} : {A : Type ℓ} → Option A → Bool
is_set none = false
is_set (some a) = true

abbrev pub is_final : Status → Bool
is_final succeeded = true
is_final failed = true
is_final cancelled = true
is_final _ = false

-- What the columns of a row say together.
pub record IsShaped (r : Run) : Type 0 where
  pub counted : 1 ≤ r.attempt
  pub queued_unowned : r.status ≡ queued → r.worker_id ≡ none
  pub queued_unstarted : r.status ≡ queued → r.started_at ≡ none
  pub queued_unheard : r.status ≡ queued → r.last_heartbeat_at ≡ none
  pub running_owned : r.status ≡ running → is_set r.worker_id ≡ true
  pub running_started : r.status ≡ running → is_set r.started_at ≡ true
  pub running_heard : r.status ≡ running → is_set r.last_heartbeat_at ≡ true
  pub running_undelayed : r.status ≡ running → r.next_attempt_at ≡ none
  pub open_unfinished : is_final r.status ≡ false → r.finished_at ≡ none
  pub final_finished : is_final r.status ≡ true → is_set r.finished_at ≡ true
  pub output_succeeded : is_set r.output ≡ true → r.status ≡ succeeded
  pub uncancelled : r.status ≢ cancelled

-- A statement keeps a row's identity and its occurrence, and moves it along its life.
pub record RunStep (r s : Run) : Type 0 where
  pub same_id : s.id ≡ r.id
  pub same_job : s.job_id ≡ r.job_id
  pub same_time : s.scheduled_time ≡ r.scheduled_time
  pub move : Move (phase r) (phase s)
  pub shaped : IsShaped r → IsShaped s
  pub frozen : is_final r.status ≡ true → s ≡ r

pub RunStep-refl : (r : Run) → RunStep r r
RunStep-refl r = record {
  same_id = refl;
  same_job = refl;
  same_time = refl;
  move = stay refl;
  shaped = λ h. h;
  frozen = λ h. refl;
}

phase-queued : (r : Run) → is_queued r.status ≡ true → phase r ≡ waiting r.attempt
unfolding phase
phase-queued r h = ground arith

phase-running : (r : Run) → is_running r.status ≡ true → phase r ≡ executing r.attempt r.worker_id
unfolding phase
phase-running r h = ground arith

pub claimed-RunStep :
    (now run_id : ℕ) (worker : String) (r : Run)
    → claimable now run_id r ≡ true
    → RunStep r (claimed now worker r)
unfolding phase
claimed-RunStep now run_id worker r h = record {
  same_id = refl;
  same_job = refl;
  same_time = refl;
  move = start r.attempt worker (phase-queued r (ground arith)) refl;
  shaped = λ s. ground arith;
  frozen = λ f. ground arith;
}

pub beaten-RunStep :
    (now run_id : ℕ) (worker : String) (attempt : ℕ) (r : Run)
    → owns run_id worker attempt r ≡ true
    → RunStep r (beaten now r)
unfolding phase
beaten-RunStep now run_id worker attempt r h = record {
  same_id = refl;
  same_job = refl;
  same_time = refl;
  move = stay refl;
  shaped = λ s. ground arith;
  frozen = λ f. ground arith;
}

pub finished-RunStep :
    (now run_id : ℕ) (worker : String) (attempt : ℕ) (output : Option String) (r : Run)
    → owns run_id worker attempt r ≡ true
    → RunStep r (finished now succeeded output none r)
unfolding phase
finished-RunStep now run_id worker attempt output r h = record {
  same_id = refl;
  same_job = refl;
  same_time = refl;
  move = end r.attempt r.worker_id succeeded (phase-running r (ground arith)) refl;
  shaped = λ s. ground arith;
  frozen = λ f. ground arith;
}

pub released-RunStep :
    (now run_id : ℕ) (worker : String) (attempt : ℕ) (reason : String) (r : Run)
    → owns run_id worker attempt r ≡ true
    → RunStep r (released now reason r)
unfolding phase
released-RunStep now run_id worker attempt reason r h = record {
  same_id = refl;
  same_job = refl;
  same_time = refl;
  move = requeue r.attempt r.worker_id (phase-running r (ground arith)) refl;
  shaped = λ s. ground arith;
  frozen = λ f. ground arith;
}

pub undispatched-RunStep :
    (now run_id : ℕ) (reason : String) (r : Run)
    → (r.id == run_id && is_queued r.status) ≡ true
    → RunStep r (undispatched now reason r)
unfolding phase
undispatched-RunStep now run_id reason r h = record {
  same_id = refl;
  same_job = refl;
  same_time = refl;
  move = drop r.attempt (phase-queued r (ground arith)) refl;
  shaped = λ s. ground arith;
  frozen = λ f. ground arith;
}

pub requeued_now-RunStep :
    (now older : ℕ) (j : Job) (r : Run)
    → is_forgotten now older r ≡ true
    → RunStep r (requeued_now now j r)
unfolding phase
requeued_now-RunStep now older j r h = record {
  same_id = refl;
  same_job = refl;
  same_time = refl;
  move = stay refl;
  shaped = λ s. ground arith;
  frozen = λ f. ground arith;
}

pub dispatched_retry-RunStep :
    (now : ℕ) (j : Job) (r : Run) → is_due_retry now r ≡ true → RunStep r (dispatched_retry now j r)
unfolding phase
dispatched_retry-RunStep now j r h = record {
  same_id = refl;
  same_job = refl;
  same_time = refl;
  move = stay refl;
  shaped = λ s. ground arith;
  frozen = λ f. ground arith;
}

pub reaped-RunStep :
    (now stale : ℕ) (j : Job) (r : Run) → is_stale now stale r ≡ true → RunStep r (reaped now j r)
unfolding phase
reaped-RunStep now stale j r h = record {
  same_id = ground arith;
  same_job = ground arith;
  same_time = ground arith;
  move = elim (Bool-cases (exhausted j r)) [
    | inl e ↦ rw e (end r.attempt r.worker_id failed (phase-running r (ground arith)) refl)
    | inr e ↦ rw e (requeue r.attempt r.worker_id (phase-running r (ground arith)) refl)
  ];
  shaped = λ s. ground arith;
  frozen = λ f. ground arith;
}

pub failed_or_retried-RunStep :
    (now run_id : ℕ) (worker : String) (attempt : ℕ) (message : String) (backoff : ℕ) (j : Job)
    (r : Run)
    → owns run_id worker attempt r ≡ true
    → RunStep r (failed_or_retried now message backoff j r)
unfolding phase
failed_or_retried-RunStep now run_id worker attempt message backoff j r h = record {
  same_id = ground arith;
  same_job = ground arith;
  same_time = ground arith;
  move = elim (Bool-cases (exhausted j r)) [
    | inl e ↦ rw e (end r.attempt r.worker_id failed (phase-running r (ground arith)) refl)
    | inr e ↦ rw e (requeue r.attempt r.worker_id (phase-running r (ground arith)) refl)
  ];
  shaped = λ s. ground arith;
  frozen = λ f. ground arith;
}
