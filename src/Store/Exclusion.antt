-- ===== src/Store/Exclusion.antt =====
-- What the conditional UPDATE of ClaimRun guarantees across calls: one claim at a time, and no claim
-- before a backoff has ended.
use jobsys.Base.{
  ℕ, ◌≡◌, ◌+◌, refl, String, true, false, none, some, [], ◌∷◌, arith, if◌then◌else◌, leb,
}
use jobsys.Store.Models.{Job, Run, Db, failed, is_queued}
use jobsys.Store.Runs.{fail_queued_run, undispatched}
use jobsys.Store.Keyed.{find-update-key}
use jobsys.Store.Table.{find_run, find_job}
use jobsys.Store.Batches.{HasRunIds}
use jobsys.Store.Evolve.{Evolves-ids}
use jobsys.Store.Worker.{claim_run, claimed, exhausted}
use jobsys.Store.Retry.{fail_or_retry, failed_or_retried}
use jobsys.Store.History.{claims, fails, exec, exec_all}
use jobsys.Store.Lifecycle.{exec_all-Evolves}
use jobsys.Store.Claims.{is_ready, claim_run_lem, is_owner, fail_or_retry_lem}

claim_run-keyed :
    (now id : ℕ) (worker : String) (db : Db)
    → HasRunIds db
    → HasRunIds (claim_run now id worker db).0
claim_run-keyed now id worker db h =
    unfold exec_all exec in Evolves-ids (exec_all-Evolves (claims now id worker ∷ []) db h) h

fail_or_retry-keyed :
    (now id : ℕ) (worker : String) (attempt : ℕ) (message : String) (backoff : ℕ) (db : Db)
    → HasRunIds db
    → HasRunIds (fail_or_retry now id worker attempt message backoff db).0
fail_or_retry-keyed now id worker attempt message backoff db h =
    unfold exec_all exec in
    Evolves-ids (exec_all-Evolves (fails now id worker attempt message backoff ∷ []) db h) h

module _ (id : ℕ) (db : Db) (r : Run) (keyed : HasRunIds db) (found : find_run id db ≡ some r) where
  -- Two claims of one run: when the first succeeds, the second is refused and changes nothing about
  -- the run, whoever makes it and whenever.
  pub claim_run-claim_run :
      (now later : ℕ) (worker other : String)
      → is_ready now r ≡ true
      → let db' = (claim_run now id worker db).0 in
        ((claim_run now id worker db).1 ≡ some (claimed now worker r))
        × ((claim_run later id other db').1 ≡ none)
        × (find_run id (claim_run later id other db').0 ≡ some (claimed now worker r))
  claim_run-claim_run now later worker other ready =
      let (answer, left) = claim_run_lem id db r keyed found now worker in
      let left' : find_run id (claim_run now id worker db).0 ≡ some (claimed now worker r) =
        rw ready at left in
      let (refused, kept) =
        claim_run_lem id (claim_run now id worker db).0 (claimed now worker r)
          (claim_run-keyed now id worker db keyed) left' later other in
      (rw ready at answer, refused, kept)

  -- A worker fails an attempt that it owns, with retries left: the run can be claimed again exactly from `now + backoff`
  -- on, by any worker, and then as the next attempt.
  pub retry_waits :
      (now : ℕ) (worker : String) (attempt : ℕ) (message : String) (backoff : ℕ) (j : Job)
      → find_job r.job_id db ≡ some j
      → is_owner worker attempt r ≡ true
      → exhausted j r ≡ false
      → (later : ℕ) (other : String)
      → let db' = (fail_or_retry now id worker attempt message backoff db).0 in
        let s = failed_or_retried now message backoff j r in
        ((claim_run later id other db').1
          ≡ (if leb (now + backoff) later then some (claimed later other s) else none))
        × (s.attempt ≡ attempt + 1)
  retry_waits now worker attempt message backoff j job own left later other =
      let (status, row) =
        fail_or_retry_lem id db r keyed found now worker attempt message backoff j job own in
      let db' = (fail_or_retry now id worker attempt message backoff db).0 in
      let s = failed_or_retried now message backoff j r in
      let ready : is_ready later s ≡ leb (now + backoff) later = rw left refl in
      let (answer, _) =
        claim_run_lem id db' s (fail_or_retry-keyed now id worker attempt message backoff db keyed)
          row later other in
      (rw ready at answer, rw left (ground arith))

  -- FailQueuedRun on a run that a worker has executed: if the attempt failed with retries left, the
  -- call marks the waiting retry FAILED, with its backoff still set.
  pub fail_queued_run-retry :
      (now : ℕ) (worker : String) (attempt : ℕ) (message : String) (backoff : ℕ) (j : Job)
      → find_job r.job_id db ≡ some j
      → is_owner worker attempt r ≡ true
      → exhausted j r ≡ false
      → (later : ℕ) (reason : String)
      → let db' = (fail_or_retry now id worker attempt message backoff db).0 in
        (s : Run) × (find_run id (fail_queued_run later id reason db') ≡ some s)
        × (s.status ≡ failed)
        × (s.attempt ≡ attempt + 1)
        × (s.next_attempt_at ≡ some (now + backoff))
  unfolding fail_queued_run
  fail_queued_run-retry now worker attempt message backoff j job own left later reason =
      let (status, row) =
        fail_or_retry_lem id db r keyed found now worker attempt message backoff j job own in
      let db' = (fail_or_retry now id worker attempt message backoff db).0 in
      let s = failed_or_retried now message backoff j r in
      let waits : is_queued s.status ≡ true = rw left refl in
      let k =
        find-update-key id (λ x. is_queued x.status) (undispatched later reason) db' s
          (fail_or_retry-keyed now id worker attempt message backoff db keyed) row (λ x. refl) in
      (undispatched later reason s, rw waits at k, refl, rw left (ground arith), rw left refl)
