-- ===== src/Scheduler.antt =====
-- internal/scheduler/scheduler.go: a tick fires the jobs that are due, a batch at a time, and
-- announces the runs it queued. The clock and the ticker are lists of rounds.
use jobsys.Base.{
  ℕ, ◌++◌, String, Bool, true, false, List, [], ◌∷◌, Result, ok, err, ltb, length, if◌then◌else◌,
}
use jobsys.Store.Models.{Db, Redispatch, StoreError}
use jobsys.Store.Schedule.{DueJob, Firing, fire_due_jobs}
use jobsys.Job.Cron.{Clockwork, next_run}
use jobsys.Worker.Env.{World, Notice, Fault, call, dispatch}
pub mod Due
pub mod Termination
pub mod Tests

abbrev pub batch : ℕ
batch = 100

-- How one round of the loop goes: the call of the database, its time and the rows that others
-- hold, the scheduler's clock, the ids of new runs and the calls of the broker.
pub record Round : Type 0 where
  pub firing : Fault
  pub now : ℕ
  pub locked : ℕ → Bool
  pub clock : ℕ
  pub new_id : DueJob → ℕ
  pub dispatching : ℕ → Fault

-- The run stays QUEUED where the broker fails.
unfoldable pub dispatch_fired : (ℕ → Fault) → List Redispatch → World → World
dispatch_fired faults [] w = w
dispatch_fired faults (r ∷ rs) w =
    let n : Notice = record {
      run_id = r.run_id;
      job_id = r.job_id;
      job_type = r.job_type;
      attempt = r.attempt;
    } in
    dispatch_fired faults rs (dispatch (faults r.run_id) n w).0

-- A transaction that fails leaves the tables as they were.
abbrev pub committed : Db → Result StoreError Firing → Db × List Redispatch
committed db (ok s) = (s.db, s.fired)
committed db (err e) = (db, [])

-- A call that fails hands back no runs.
abbrev pub fired_or_none : World × Result String (List Redispatch) → World × List Redispatch
fired_or_none (w, ok rs) = (w, rs)
fired_or_none (w, err e) = (w, [])

module _ (quote : String → String) (c : Clockwork) where
  unfoldable pub next : ℕ → DueJob → Result String ℕ
  next clock d = next_run quote c d.cron_expr d.timezone clock

  -- The transaction of a round, and the runs it queued.
  unfoldable pub fire : Round → World → World × List Redispatch
  fire r w = fired_or_none (
      call r.firing
        (λ db. committed db (fire_due_jobs r.now r.new_id (next r.clock) r.locked batch db)) w)

  -- The answer says whether the tick returned within these rounds.
  unfoldable pub tick : List Round → World → World × Bool
  tick [] w = (w, false)
  tick (r ∷ rs) w =
      let (w', fired) = fire r w in
      let sent = dispatch_fired r.dispatching fired w' in
      let rest = tick rs sent in if ltb (length fired) batch then (sent, true) else rest

  -- Run: a tick at once and another at each of the ticker's, until its context is over.
  unfoldable pub run_ticks : List Round → List (List Round) → World → World
  run_ticks rounds [] w = (tick rounds w).0
  run_ticks rounds (more ∷ rest) w = run_ticks more rest (tick rounds w).0
