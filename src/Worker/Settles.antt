-- ===== src/Worker/Settles.antt =====
-- How execute leaves the run whose attempt it was given.
use jobsys.Base.{
  ℕ, ◌≡◌, refl, ap, ◌∙◌, String, Bool, true, false, Option, none, some, Result, ok, err, ◌<>◌,
  decimal, arith,
}
use jobsys.Store.Models.{Db, Run, Job, succeeded, StoreError}
use jobsys.Store.Jobs.{get_job}
use jobsys.Store.Table.{find_run, find_job}
use jobsys.Store.Batches.{HasRunIds}
use jobsys.Store.Worker.{finish_run, release_run, finished, released}
use jobsys.Store.Retry.{failed_or_retried}
use jobsys.Store.Claims.{is_owner, write_owned_lem, fail_or_retry_lem}
use jobsys.Store.Histories.{IsValid, exec_all-IsValid}
use jobsys.Store.History.{exec_all}
use jobsys.Worker.Env.{Config, World, Notice, Fault, fine, refused, unanswered, call, dispatch}
use jobsys.Worker.Execute.{
  Env, Cause, lost_run, shutdown, timeout, backoff_of, fail, succeed, release, write_output_file,
  conclude, execute, run_loaded, announce,
}

module _ {ℓ} {A : Type ℓ} (f : Db → Db × A) (w : World) where
  pub call-fine :
      (x : Fault) → x ≡ fine → call x f w ≡ (record w { db = (f w.db).0 }, ok (f w.db).1)
  unfolding call
  call-fine x e = rw e refl

dispatch-db : (x : Fault) (n : Notice) (w : World) → (dispatch x n w).0.db ≡ w.db
unfolding dispatch
dispatch-db fine n w = refl
dispatch-db (refused e) n w = refl
dispatch-db (unanswered e) n w = refl

abbrev pub release_reason : Config → String
release_reason cfg = "released by " <> cfg.id <> " shutting down"

-- What the end of an attempt should make of its row, from how the job ended and why its context
-- did. `loaded` is the job as it was when the attempt began, `j` as it is at the end.
abbrev pub settled :
    Config → Env → Run → Job → Job → Result String String → Option Cause → Run → Run
settled cfg env run loaded j (ok output) c r = finished env.ended_at succeeded (some output) none r
settled cfg env run loaded j (err e) none r =
    failed_or_retried env.ended_at e (backoff_of cfg run) j r
settled cfg env run loaded j (err e) (some lost_run) r = r
settled cfg env run loaded j (err e) (some shutdown) r =
    released env.ended_at (release_reason cfg) r
settled cfg env run loaded j (err e) (some timeout) r =
    failed_or_retried env.ended_at ("timed out after " <> decimal loaded.timeout_sec <> "s")
      (backoff_of cfg run) j r

module _ (cfg : Config) (path : String → ℕ → String) (message : StoreError → String) where
  db-after-file :
      (env : Env) (run : Run) (output : String) (w : World)
      → (write_output_file cfg path message env run output w).db ≡ w.db
  unfolding write_output_file
  db-after-file env run output w = ground arith

  announce-db :
      (env : Env) (run : Run) (job_type : String) (w : World) (a : Result String Bool)
      → (announce cfg env run job_type (w, a)).db ≡ w.db
  announce-db env run job_type w (ok true) = dispatch-db env.dispatching _ w
  announce-db env run job_type w (ok false) = refl
  announce-db env run job_type w (err e) = refl

  module _ (env : Env) (run : Run) (w : World) (keyed : HasRunIds w.db)
      (working : env.ending ≡ fine) (r : Run) (j : Job) (found : find_run run.id w.db ≡ some r)
      (job : find_job r.job_id w.db ≡ some j) (own : is_owner cfg.id run.attempt r ≡ true) where
    fail-settles :
        (why : String)
        → find_run run.id (fail cfg env run why w).db
          ≡ some (failed_or_retried env.ended_at why (backoff_of cfg run) j r)
    unfolding fail
    fail-settles why =
        let (status, row) =
          fail_or_retry_lem run.id w.db r keyed found env.ended_at cfg.id run.attempt why
            (backoff_of cfg run) j job own in
        ap (λ x. find_run run.id x.0.db) (call-fine _ w env.ending working) ∙ row

    release-settles :
        (job_type : String)
        → find_run run.id (release cfg env run job_type w).db
          ≡ some (released env.ended_at (release_reason cfg) r)
    unfolding release release_run
    release-settles job_type =
        let f = released env.ended_at (release_reason cfg) in
        let (_, row) = write_owned_lem run.id w.db r keyed found cfg.id run.attempt f (λ x. refl) in
        ap (find_run run.id) (announce-db env run job_type _ _)
        ∙ ap (λ x. find_run run.id x.0.db) (call-fine _ w env.ending working)
        ∙ rw own at row

  succeed-settles :
      (env : Env) (run : Run) (w : World) (keyed : HasRunIds w.db) (r : Run) (output : String)
      → env.ending ≡ fine
      → find_run run.id w.db ≡ some r
      → is_owner cfg.id run.attempt r ≡ true
      → find_run run.id (succeed cfg env run output w).db
        ≡ some (finished env.ended_at succeeded (some output) none r)
  unfolding succeed finish_run
  succeed-settles env run w keyed r output working found own =
      let f = finished env.ended_at succeeded (some output) none in
      let (_, row) = write_owned_lem run.id w.db r keyed found cfg.id run.attempt f (λ x. refl) in
      ap (λ x. find_run run.id x.0.db) (call-fine _ w env.ending working) ∙ rw own at row

  -- The cases of the switch in which the attempt did not succeed.
  conclude-err :
      (env : Env) (run : Run) (w : World) (keyed : HasRunIds w.db) (r : Run) (loaded j : Job)
      → env.ending ≡ fine
      → find_run run.id w.db ≡ some r
      → find_job r.job_id w.db ≡ some j
      → is_owner cfg.id run.attempt r ≡ true
      → (e : String) (c : Option Cause) → env.cause ≡ c
      → find_run run.id (conclude cfg path message env run loaded (err e) w).db
        ≡ some (settled cfg env run loaded j (err e) c r)
  unfolding conclude
  conclude-err env run w keyed r loaded j working found job own e none k =
      rw (k, conclude) (fail-settles env run w keyed working r j found job own e)
  conclude-err env run w keyed r loaded j working found job own e (some lost_run) k =
      rw (k, conclude) found
  conclude-err env run w keyed r loaded j working found job own e (some shutdown) k =
      rw (k, conclude) (release-settles env run w keyed working r j found job own loaded.type)
  conclude-err env run w keyed r loaded j working found job own e (some timeout) k =
      rw (k, conclude) (fail-settles env run w keyed working r j found job own _)

  conclude-settles :
      (env : Env) (run : Run) (w : World) (keyed : HasRunIds w.db) (r : Run) (loaded j : Job)
      → env.ending ≡ fine
      → find_run run.id w.db ≡ some r
      → find_job r.job_id w.db ≡ some j
      → is_owner cfg.id run.attempt r ≡ true
      → (outcome : Result String String)
      → find_run run.id (conclude cfg path message env run loaded outcome w).db
        ≡ some (settled cfg env run loaded j outcome env.cause r)
  conclude-settles env run w keyed r loaded j working found job own (err e) =
      conclude-err env run w keyed r loaded j working found job own e env.cause refl
  conclude-settles env run w keyed r loaded j working found job own (ok output) =
      let w' = write_output_file cfg path message env run output w in
      let same : w'.db ≡ w.db = db-after-file env run output w in
      unfold conclude in
      succeed-settles env run w' (rw same keyed) r output working (rw same found) own

  -- An attempt that its worker still owns when its job ends, with a database that answers, leaves the
  -- run's row as the outcome asks: succeeded with the output; untouched when the heartbeat reported
  -- the run lost; requeued at once on a shutdown; and on a timeout or any other error retried after
  -- the backoff, or failed if the retries are used up.
  pub execute-settles :
      (env : Env) (run : Run) (job_run : Job → ℕ → Result String String) (w : World) (r : Run)
      (loaded j : Job)
      → IsValid w.db
      → env.loading ≡ fine
      → env.ending ≡ fine
      → find_job run.job_id w.db ≡ some loaded
      → let middle = exec_all env.meanwhile w.db in
        find_run run.id middle ≡ some r
        → find_job r.job_id middle ≡ some j
        → is_owner cfg.id run.attempt r ≡ true
        → find_run run.id (execute cfg path message env run job_run w).db
          ≡ some (settled cfg env run loaded j (job_run loaded run.attempt) env.cause r)
  unfolding execute get_job
  execute-settles env run job_run w r loaded j v loading working first found job own =
      let w' = record w { db = exec_all env.meanwhile w.db } in
      let v' = exec_all-IsValid env.meanwhile w.db v in
      ap (λ x. find_run run.id (run_loaded cfg path message env run job_run x).db)
        (call-fine _ w env.loading loading)
      ∙ rw first (
          conclude-settles env run w' v'.keyed r loaded j working found job own
            (job_run loaded run.attempt))
