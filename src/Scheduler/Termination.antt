-- ===== src/Scheduler/Termination.antt =====
-- Why Tick of internal/scheduler/scheduler.go returns: a full round leaves fewer jobs due.
use jobsys.Base.{ℕ, ◌≤◌, ◌<◌, ◌≡◌, ◌⊎◌, String, List, []}
use jobsys.Store.Models.{Job, Db, Redispatch}
use jobsys.Store.Schedule.{Firing}
use jobsys.Store.Firing.{IsLater}
use jobsys.Job.Cron.{Clockwork}
use jobsys.Scheduler.{Round, next}
use jobsys.Scheduler.Due.{due_by}

-- A transaction leaves no more jobs due by the horizon, and fewer if it queued a run.
abbrev Shrinks : ℕ → Db → Db × List Redispatch → Type 0
Shrinks horizon db (after, fired) =
    (due_by horizon after.jobs ≤ due_by horizon db.jobs)
    × ((fired ≡ []) ⊎ (due_by horizon after.jobs < due_by horizon db.jobs))

module _ (quote : String → String) (c : Clockwork) (horizon : ℕ) where
  -- The database's time is within the horizon, and what NextRun answers lies beyond it.
  abbrev pub IsWithin : Round → Type 0
  IsWithin r = (r.now ≤ horizon) × IsLater horizon (next quote c r.clock)
