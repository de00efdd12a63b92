-- ===== src/Worker/Recovers.antt =====
-- What one maintenance pass of a worker makes of a run, and that it announces the runs it puts back.
use mathlib.Core.List.{Memᴰ}
use jobsys.Base.{ℕ, ◌≡◌, Bool, true, ◌&&◌, ◌||◌, not}
use jobsys.Store.Models.{Run, Job}
use jobsys.Store.Table.{redispatch}
use jobsys.Store.Worker.{is_stale, exhausted, is_forgotten}
use jobsys.Store.Retry.{is_due_retry}
use jobsys.Store.Claims.{is_ready}
use jobsys.Worker.Env.{Config, World, fine}
use jobsys.Worker.Handling.{Holds, reaped_row, retried_row, recovered}
use jobsys.Worker.Maintain.{Pass, maintain, notice_of}

-- A run that a pass should hand back to the workers: its worker has been silent for too long and it
-- has retries left, or its backoff has elapsed, or it has waited for too long.
abbrev pub is_handed_back : Config → Pass → Job → Run → Bool
is_handed_back cfg pass j r =
    (is_stale pass.reap_at cfg.stale_after r && not (exhausted j r))
    || (is_due_retry pass.retry_at r || is_forgotten pass.sweep_at cfg.sweep_after r)

-- The three parts of a pass, one after another.
module _ (cfg : Config) (pass : Pass) (j : Job) (r : Run) (w : World) (h : Holds j r w.db)
    (reaping : pass.reaping ≡ fine) (retrying : pass.retrying ≡ fine)
    (sweeping : pass.sweeping ≡ fine) where
  abbrev row_1 : Run
  row_1 = reaped_row cfg pass j r

  abbrev row_2 : Run
  row_2 = retried_row cfg pass j row_1

  abbrev row : Run
  row = recovered cfg pass j r

  -- The run is announced with the attempt that the pass leaves it at, and may be claimed.
  abbrev HandedBack : ℕ → Type 0
  HandedBack now =
      Memᴰ (notice_of (redispatch j row)) (maintain cfg pass w).topic × (is_ready now row ≡ true)
