-- ===== src/Worker/Pool/Tests.antt =====
-- A worker that executes one run.
use jobsys.Base.{
  ℕ, ◌⊎◌, false, ◌+◌, ◌≤◌, ◌≡◌, refl, String, Option, some, [], ◌∷◌, ok, Result, arith,
}
use jobsys.Base.Unique.{Distinct}
use jobsys.Queue.{Dispatch, decode_dispatch}
use jobsys.Store.Models.{Run, new_run, manual}
use jobsys.Store.Worker.{claimed, claim_run}
use jobsys.Store.Histories.{IsValid}
use jobsys.Worker.Env.{World, fine}
use jobsys.Worker.Execute.{claim}
use jobsys.Worker.Tests.{worker_a, with_run, path, said}
use jobsys.Worker.Pool.{
  is_returned, Pool, start, takes_slot, fetches, starts, Reachable, here, next, selecting, loading,
}
use jobsys.Worker.Pool.Begun.{same_attempt}
use jobsys.Worker.Pool.Slots.{Reachable-slots}
use jobsys.Worker.Pool.Once.{owned, Reachable-Distinct}

abbrev message : String → Result String Dispatch
message s = ok (record { run_id = s; job_id = "1"; job_type = "generate_text"; attempt = 1 })

abbrev seven : String → Option ℕ
seven s = some 7

abbrev waiting_run : World
waiting_run = with_run (new_run 7 1 10 manual 10)

abbrev taken : Run
taken = claimed 20 "a" (new_run 7 1 10 manual 10)

abbrev executing_one : Pool
executing_one = record (start (with_run taken)) {
  slots = 1;
  tasks = loading taken ∷ [];
  claimed_runs = taken ∷ [];
}

executing_one-Reachable :
    Reachable worker_a path said message seven (start waiting_run) executing_one
unfolding claim decode_dispatch claim_run jobsys.Worker.Env.call jobsys.Store.Table.updated
    jobsys.Store.Table.update
executing_one-Reachable =
    next (next (next here (takes_slot refl (omega arith))) (fetches fine 20 "7" refl))
      (starts taken refl)

Reachable-slots_example :
    (1 ≡ 1 + 0) × ((1 + 0 ≤ 2) × ((executing_one.tasks ≡ []) ⊎ (is_returned selecting ≡ false)))
Reachable-slots_example =
    Reachable-slots worker_a path said message seven waiting_run executing_one
      executing_one-Reachable

waiting-IsValid : IsValid waiting_run.db
waiting-IsValid = record {
  keyed = (refl, tt);
  occurs_once = (refl, tt);
  rows_shaped = (ground arith, tt);
}

Reachable-Distinct_example :
    Distinct same_attempt (taken ∷ []) × Distinct same_attempt (owned executing_one)
Reachable-Distinct_example =
    Reachable-Distinct worker_a path said message seven waiting_run executing_one waiting-IsValid
      executing_one-Reachable
