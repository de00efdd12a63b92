-- ===== src/Worker/Maintain.antt =====
-- maintain of internal/worker/worker.go: one pass of the reaper, the retry dispatcher and the
-- sweeper. Each announces the runs that it requeued or found waiting.
use jobsys.Base.{ℕ, Bool, true, false, List, [], ◌∷◌, Result, ok, err, String, if◌then◌else◌}
use jobsys.Store.Models.{Redispatch, Status, failed}
use jobsys.Store.Worker.{reap_stale, sweep_queued}
use jobsys.Store.Retry.{due_retries}
use jobsys.Worker.Env.{Config, World, Notice, Fault, call, dispatch}

-- How each call of the pass goes, its times and the rows that others hold.
pub record Pass : Type 0 where
  pub reaping : Fault
  pub retrying : Fault
  pub sweeping : Fault
  pub dispatching : ℕ → Fault
  pub reap_at : ℕ
  pub retry_at : ℕ
  pub sweep_at : ℕ
  pub locked : ℕ → Bool

abbrev pub maintenance_batch : ℕ
maintenance_batch = 100

abbrev pub notice_of : Redispatch → Notice
notice_of r = record {
  run_id = r.run_id;
  job_id = r.job_id;
  job_type = r.job_type;
  attempt = r.attempt;
}

unfoldable pub redispatch_run : (ℕ → Fault) → Redispatch → World → World
redispatch_run faults r w = (dispatch (faults r.run_id) (notice_of r) w).0

unfoldable pub redispatch_all : (ℕ → Fault) → List Redispatch → World → World
redispatch_all faults [] w = w
redispatch_all faults (r ∷ rs) w = redispatch_all faults rs (redispatch_run faults r w)

abbrev pub is_failed : Status → Bool
is_failed failed = true
is_failed _ = false

-- What the loop over the reaped runs passes over.
unfoldable pub requeued : List Redispatch → List Redispatch
requeued [] = []
requeued (r ∷ rs) = let rest = requeued rs in if is_failed r.status then rest else r ∷ rest

-- A query that fails hands back nothing.
abbrev pub rows_or_none : World × Result String (List Redispatch) → World × List Redispatch
rows_or_none (w, ok rs) = (w, rs)
rows_or_none (w, err e) = (w, [])

module _ (cfg : Config) (pass : Pass) where
  unfoldable pub reap : World → World
  reap w =
      let (w', rs) = rows_or_none (
        call pass.reaping (reap_stale pass.reap_at pass.locked cfg.stale_after maintenance_batch)
          w) in
      redispatch_all pass.dispatching (requeued rs) w'

  unfoldable pub retry : World → World
  retry w =
      let (w', rs) =
        rows_or_none
          (call pass.retrying (due_retries pass.retry_at pass.locked maintenance_batch) w) in
      redispatch_all pass.dispatching rs w'

  unfoldable pub sweep : World → World
  sweep w =
      let (w', rs) = rows_or_none (
        call pass.sweeping
          (sweep_queued pass.sweep_at pass.locked cfg.sweep_after maintenance_batch) w) in
      redispatch_all pass.dispatching rs w'

  unfoldable pub maintain : World → World
  maintain w = sweep (retry (reap w))
