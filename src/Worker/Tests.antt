-- ===== src/Worker/Tests.antt =====
-- A worker at concrete values.
use Prim.Native.Nat.{min}
use jobsys.Base.{
  ℕ, ◌≡◌, ◌*◌, ◌^◌, ◌-◌, refl, String, true, none, some, Result, err, arith, List, [], ◌∷◌, false,
}
use jobsys.Base.Int.{pos}
use jobsys.Store.Models.{Job, Run, new_run, manual, StoreError}
use jobsys.Store.Table.{find_run, find_job}
use jobsys.Store.Worker.{claimed, released}
use jobsys.Store.Retry.{failed_or_retried}
use jobsys.Store.Histories.{IsValid}
use jobsys.Store.History.{exec_all}
use jobsys.Worker.Backoff.{retry_delay, retry_delay-min}
use jobsys.Worker.RunLog.{Event, logs, ticks, start, handle_all, close, numbered_line}
use jobsys.Worker.Env.{Config, World, fine, refused}
use jobsys.Worker.Execute.{Env, shutdown, execute}
use jobsys.Worker.Settles.{execute-settles, release_reason}
use jobsys.Worker.Heartbeat.{Tick}
use jobsys.Worker.Maintain.{Pass}

retry_delay-min_example : retry_delay (pos 5) (pos 300) 4 ≡ pos (min (5 * 2 ^ (4 - 1)) 300)
retry_delay-min_example = retry_delay-min 5 300 4 (omega arith)

abbrev busy : List Event
busy = logs 1 "info" "a" ∷ logs 2 "info" "b" ∷ ticks ∷ logs 3 "error" "c" ∷ []

busy_batches :
    (close (handle_all (start 1 2) busy)).sent
    ≡ (numbered_line 1 1 1 "info" "a" ∷ numbered_line 1 2 2 "info" "b" ∷ [])
      ∷ (numbered_line 1 3 3 "error" "c" ∷ [])
      ∷ []
unfolding close handle_all jobsys.Worker.RunLog.handle
busy_batches = refl

abbrev pub report : Job
report = record {
  id = 1;
  name = "report";
  type = "generate_text";
  payload = "{}";
  cron_expr = none;
  timezone = "UTC";
  next_run_at = none;
  enabled = true;
  max_retries = 1;
  timeout_sec = 300;
  created_at = 5;
  updated_at = 5;
}

abbrev held_run : Run
held_run = claimed 20 "a" (new_run 7 1 10 manual 10)

abbrev pub with_run : Run → World
with_run r = record {
  db = record { jobs = report ∷ []; runs = r ∷ []; logs = [] };
  topic = [];
  files = [];
}

abbrev pub worker_a : Config
worker_a = record {
  id = "a";
  concurrency = 2;
  stale_after = 15;
  sweep_after = 60;
  retry_base_delay = pos 5;
  retry_max_delay = pos 300;
  output_dir = "";
}

abbrev stopping : Env
stopping = record {
  loading = fine;
  ending = fine;
  dispatching = fine;
  ended_at = 30;
  meanwhile = [];
  cause = some shutdown;
  disk = true;
}

held-IsValid : IsValid (with_run held_run).db
held-IsValid = record {
  keyed = (refl, tt);
  occurs_once = (refl, tt);
  rows_shaped = (ground arith, tt);
}

abbrev pub path : String → ℕ → String
path d id = d

abbrev pub said : StoreError → String
said e = "not found"

abbrev interrupted : Job → ℕ → Result String String
interrupted j attempt = err "context canceled"

execute-settles_example :
    find_run 7 (execute worker_a path said stopping held_run interrupted (with_run held_run)).db
    ≡ some (released 30 (release_reason worker_a) held_run)
unfolding find_run find_job exec_all
execute-settles_example =
    execute-settles worker_a path said stopping held_run interrupted (with_run held_run) held_run
      report report held-IsValid refl refl refl refl refl refl

abbrev retried_run : Run
retried_run = failed_or_retried 40 "attempt 1 lost worker a" 5 report held_run

-- The first call gets lost, the second is answered.
abbrev two_ticks : List Tick
two_ticks =
    record { since = []; beating = refused "timeout"; now = 50 }
    ∷ record { since = []; beating = fine; now = 53 }
    ∷ []

-- The worker of the held run has been silent since 20.
abbrev one_pass : Pass
one_pass = record {
  reaping = fine;
  retrying = fine;
  sweeping = fine;
  dispatching = λ id. fine;
  reap_at = 60;
  retry_at = 60;
  sweep_at = 61;
  locked = λ id. false;
}
