-- ===== src/Store/Claims.antt =====
-- Claiming a run, and ending an attempt: the answer and the new row on every branch.
use mathlib.Core.List.{head?}
use jobsys.Base.{
  ℕ, ◌≡◌, refl, String, Bool, true, false, none, some, [], ◌∷◌, arith, ◌==◌, ◌&&◌, if◌then◌else◌,
  is_text,
}
use jobsys.Store.Models.{Job, Run, Db, is_running, is_queued, null_or_elapsed}
use jobsys.Store.Table.{updated, find_run, find_job, returning}
use jobsys.Store.Batches.{HasRunIds}
use jobsys.Store.Keyed.{updated-key, find-update-key, joined-key, find-update_batch-one}
use jobsys.Store.Worker.{claim_run, claimed, claimable, owns, write_owned}
use jobsys.Store.Retry.{fail_or_retry, failed_or_retried, owned_with_job}

abbrev pub is_ready : ℕ → Run → Bool
is_ready now r = is_queued r.status && null_or_elapsed r.next_attempt_at now

abbrev pub is_owner : String → ℕ → Run → Bool
is_owner worker attempt x =
    is_text x.worker_id worker && (x.attempt == attempt && is_running x.status)

module _ (id : ℕ) (db : Db) (r : Run) (keyed : HasRunIds db) (found : find_run id db ≡ some r) where
  -- A claim succeeds exactly if the run is QUEUED with no backoff left. It answers with the row that
  -- it leaves in the table: RUNNING, owned by the claiming worker. Otherwise the row stays.
  pub claim_run_lem :
      (now : ℕ) (worker : String)
      → let ready = is_ready now r in
        ((claim_run now id worker db).1 ≡ (if ready then some (claimed now worker r) else none))
        × (find_run id (claim_run now id worker db).0
            ≡ some (if ready then claimed now worker r else r))
  unfolding claim_run
  claim_run_lem now worker = (
    answer (is_ready now r) (updated-key id (is_ready now) (claimed now worker) db r keyed found),
    find-update-key id (is_ready now) (claimed now worker) db r keyed found (λ x. refl),
  )
    where
      answer :
          (b : Bool)
          → updated (claimable now id) (claimed now worker) db
            ≡ (if b then claimed now worker r ∷ [] else [])
          → head? (updated (claimable now id) (claimed now worker) db)
            ≡ (if b then some (claimed now worker r) else none)
      answer true e = rw e refl
      answer false e = rw e refl

  -- An owned write answers true exactly if the worker owns the attempt, and changes the row only then.
  pub write_owned_lem :
      (worker : String) (attempt : ℕ) (f : Run → Run)
      → ((x : Run) → (f x).id ≡ x.id)
      → let owner = is_owner worker attempt r in
        ((write_owned id worker attempt f db).1 ≡ owner)
        × (find_run id (write_owned id worker attempt f db).0 ≡ some (if owner then f r else r))
  unfolding write_owned
  write_owned_lem worker attempt f h = (
    answer (is_owner worker attempt r)
        (updated-key id (is_owner worker attempt) f db r keyed found),
    find-update-key id (is_owner worker attempt) f db r keyed found h,
  )
    where
      answer :
          (b : Bool)
          → updated (owns id worker attempt) f db ≡ (if b then f r ∷ [] else [])
          → (write_owned id worker attempt f db).1 ≡ b
      answer true e = rw e refl
      answer false e = rw e refl

  -- A failed attempt that its worker owns: the status that FailOrRetry answers and the row that it
  -- leaves are FAILED if the attempts are used up, and otherwise QUEUED for the next attempt, which
  -- waits for the backoff.
  pub fail_or_retry_lem :
      (now : ℕ) (worker : String) (attempt : ℕ) (message : String) (backoff : ℕ) (j : Job)
      → find_job r.job_id db ≡ some j
      → is_owner worker attempt r ≡ true
      → let (db', status) = fail_or_retry now id worker attempt message backoff db in
        let s = failed_or_retried now message backoff j r in
        (status ≡ some s.status) × (find_run id db' ≡ some s)
  unfolding fail_or_retry returning
  fail_or_retry_lem now worker attempt message backoff j job own =
      let e : owned_with_job id worker attempt db ≡ (r, j) ∷ [] =
        joined-key id (is_owner worker attempt) db r j keyed found job own in
      let k =
        find-update_batch-one id (failed_or_retried now message backoff) db r j found
          (λ x. ground arith) in
      rw e (refl, k)
