-- ===== src/Worker/Execute.antt =====
-- claim and execute of internal/worker/worker.go. While the job runs, the worker's heartbeats and
-- log batches, and whatever other processes do, change the tables: a list of calls stands for them.
use jobsys.Base.{
  ℕ, ◌+◌, String, Bool, true, false, Option, none, some, List, [], ◌∷◌, ◌++◌, Result, ok, err, ◌<>◌,
  decimal, if◌then◌else◌, text_eq,
}
use jobsys.Base.Int.{pos_part}
use jobsys.Queue.{Dispatch, decode_dispatch}
use jobsys.Store.Models.{Run, Job, succeeded, StoreError}
use jobsys.Store.Jobs.{get_job}
use jobsys.Store.Worker.{claim_run, finish_run, release_run}
use jobsys.Store.Retry.{fail_or_retry}
use jobsys.Store.History.{Call, exec_all}
use jobsys.Worker.Backoff.{retry_delay}
use jobsys.Worker.Env.{Config, World, Fault, call, dispatch}

-- Why the attempt's context ended, if it did: context.Cause.
pub data Cause : Type 0 where
  lost_run shutdown timeout : Cause

-- What the execution meets, besides the tables.
pub record Env : Type 0 where
  pub loading : Fault
  pub ending : Fault
  pub dispatching : Fault
  pub ended_at : ℕ
  pub meanwhile : List Call
  pub cause : Option Cause
  -- Whether the output directory and file can be written.
  pub disk : Bool

module _ (cfg : Config) where
  abbrev pub backoff_of : Run → ℕ
  backoff_of run = pos_part (retry_delay cfg.retry_base_delay cfg.retry_max_delay run.attempt)

  unfoldable pub fail : Env → Run → String → World → World
  fail env run message w =
      (call env.ending
        (fail_or_retry env.ended_at run.id cfg.id run.attempt message (backoff_of run)) w).0

  unfoldable pub succeed : Env → Run → String → World → World
  succeed env run output w =
      (call env.ending
        (finish_run env.ended_at run.id cfg.id run.attempt succeeded (some output) none) w).0

  -- The next attempt is announced only if the database confirmed the release.
  abbrev pub announce : Env → Run → String → World × Result String Bool → World
  announce env run job_type (w, ok true) =
      (dispatch env.dispatching
        (record {
          run_id = run.id;
          job_id = run.job_id;
          job_type = job_type;
          attempt = run.attempt + 1;
        })
        w).0
  announce env run job_type (w, ok false) = w
  announce env run job_type (w, err e) = w

  unfoldable pub release : Env → Run → String → World → World
  release env run job_type w = announce env run job_type (
      call env.ending
        (release_run env.ended_at run.id cfg.id run.attempt
          ("released by " <> cfg.id <> " shutting down"))
        w)

  -- The path of a run's output file (filepath.Join), and Error() of a store error.
  module _ (path : String → ℕ → String) (message : StoreError → String) where
    unfoldable pub write_output_file : Env → Run → String → World → World
    write_output_file env run output w =
        if text_eq cfg.output_dir ""
        then w
        else if env.disk
        then record w { files = w.files ++ (path cfg.output_dir run.id, output) ∷ [] }
        else w

    -- The switch at the end of execute.
    unfoldable pub conclude : Env → Run → Job → Result String String → World → World
    conclude env run j (ok output) w = succeed env run output (write_output_file env run output w)
    conclude env run j (err e) w = elim env.cause [
      | some c ↦ elim c [
        | lost_run ↦ w
        | shutdown ↦ release env run j.type w
        | timeout ↦ fail env run ("timed out after " <> decimal j.timeout_sec <> "s") w
      ]
      | none ↦ fail env run e w
    ]

    -- `job_run` is job.Run on the job's type and payload, in the context that the cause ends.
    abbrev pub run_loaded :
        Env
        → Run
        → (Job → ℕ → Result String String)
        → World × Result String (Result StoreError Job)
        → World
    run_loaded env run job_run (w, err e) = fail env run ("load job: " <> e) w
    run_loaded env run job_run (w, ok (err e)) = fail env run ("load job: " <> message e) w
    run_loaded env run job_run (w, ok (ok j)) =
        conclude env run j (job_run j run.attempt) (record w { db = exec_all env.meanwhile w.db })

    unfoldable pub execute : Env → Run → (Job → ℕ → Result String String) → World → World
    execute env run job_run w =
        run_loaded env run job_run (call env.loading (λ db. (db, get_job run.job_id db)) w)

  -- A message is decoded, its run id read as a uuid by Postgres, and the run claimed.
  module _ (unmarshal : String → Result String Dispatch) (parse_uuid : String → Option ℕ) where
    abbrev pub claimed_or_none : World × Result String (Option Run) → World × Option Run
    claimed_or_none (w, ok r) = (w, r)
    claimed_or_none (w, err e) = (w, none)

    abbrev pub claim_named : Fault → ℕ → Option ℕ → World → World × Option Run
    claim_named fault now none w = (w, none)
    claim_named fault now (some id) w = claimed_or_none (call fault (claim_run now id cfg.id) w)

    unfoldable pub claim : Fault → ℕ → String → World → World × Option Run
    claim fault now value w = elim (decode_dispatch unmarshal value) [
      | err e ↦ (w, none)
      | ok d ↦ claim_named fault now (parse_uuid d.run_id) w
    ]
