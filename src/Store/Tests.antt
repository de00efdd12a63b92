-- ===== src/Store/Tests.antt =====
-- A job, its runs and their statements at concrete values.
use jobsys.Base.{◌≡◌, ◌≤◌, refl, String, true, Option, none, some, List, [], ◌∷◌, arith}
use jobsys.Store.Models.{Job, Run, Db, failed, succeeded, manual, new_run}
use jobsys.Store.Table.{find_run, find_job, update}
use jobsys.Store.Worker.{
  claim_run, claimed, exhausted, finish_run, reap_stale, reaped, is_stale, sweep_queued,
  requeued_now, is_forgotten,
}
use jobsys.Store.Retry.{fail_or_retry, failed_or_retried}
use jobsys.Store.Runs.{fail_queued_run}
use jobsys.Store.History.{Call, claims, fails, beats, exec, exec_all}
use jobsys.Store.Histories.{
  IsValid, exec_all-IsValid, exec_all-keeps, final_run_frozen, attempt_one_owner,
}
use jobsys.Store.Fencing.{IsFenced, stale_attempt-IsFenced}
use jobsys.Store.Exclusion.{claim_run-claim_run, retry_waits, fail_queued_run-retry}
use jobsys.Base.{ok}
use jobsys.Store.Models.{LogLine}
use jobsys.Store.Logs.{append_logs, insert_logs, insert_log, has_key, are_levels, is_level, log_row}
use jobsys.Store.LogKeys.{IsKeyed, append_logs-append_logs}

abbrev report : Job
report = record {
  id = 1;
  name = "report";
  type = "generate_text";
  payload = "{}";
  cron_expr = none;
  timezone = "UTC";
  next_run_at = none;
  enabled = true;
  max_retries = 1;
  timeout_sec = 300;
  created_at = 5;
  updated_at = 5;
}

abbrev waiting_run : Run
waiting_run = new_run 7 1 10 manual 10

abbrev held_run : Run
held_run = claimed 20 "a" waiting_run

abbrev done_run : Run
done_run = record held_run {
  id = 8;
  scheduled_time = 11;
  status = succeeded;
  finished_at = some 30;
  output = some "line 1";
}

abbrev retry_run : Run
retry_run = failed_or_retried 40 "boom" 5 report held_run

abbrev with_run : Run → Db
with_run r = record { jobs = report ∷ []; runs = r ∷ done_run ∷ []; logs = [] }

waiting-IsValid : IsValid (with_run waiting_run)
waiting-IsValid = record {
  keyed = (refl, (refl, tt));
  occurs_once = (refl, (refl, tt));
  rows_shaped = (ground arith, (ground arith, tt));
}

held-IsValid : IsValid (with_run held_run)
held-IsValid = record {
  keyed = (refl, (refl, tt));
  occurs_once = (refl, (refl, tt));
  rows_shaped = (ground arith, (ground arith, tt));
}

retry-IsValid : IsValid (with_run retry_run)
retry-IsValid = record {
  keyed = (refl, (refl, tt));
  occurs_once = (refl, (refl, tt));
  rows_shaped = (ground arith, (ground arith, tt));
}

abbrev busy : List Call
busy = claims 20 7 "a" ∷ beats 25 7 "a" 1 ∷ fails 40 7 "a" 1 "boom" 5 ∷ claims 50 7 "b" ∷ []

exec_all-IsValid_example : IsValid (exec_all busy (with_run waiting_run))
exec_all-IsValid_example = exec_all-IsValid busy (with_run waiting_run) waiting-IsValid

exec_all-keeps_example :
    (s : Run) × (find_run 7 (exec_all busy (with_run waiting_run)) ≡ some s)
    × (s.job_id ≡ 1)
    × (s.scheduled_time ≡ 10)
    × (1 ≤ s.attempt)
unfolding find_run
exec_all-keeps_example = exec_all-keeps busy (with_run waiting_run) waiting-IsValid waiting_run refl

final_run_frozen_example : find_run 8 (exec_all busy (with_run waiting_run)) ≡ some done_run
unfolding find_run
final_run_frozen_example =
    final_run_frozen busy (with_run waiting_run) waiting-IsValid done_run refl refl

abbrev still_held : Run
still_held = record held_run { last_heartbeat_at = some 25 }

attempt_one_owner_example : ◌≡◌ {A = Option String} (some "a") (some "a")
unfolding find_run exec_all exec claim_run
attempt_one_owner_example =
    attempt_one_owner (beats 25 7 "a" 1 ∷ claims 26 7 "b" ∷ []) (with_run held_run) held-IsValid
      held_run refl still_held (unfold update find_run jobsys.Store.Worker.heartbeat in refl) refl
      refl refl

stale_attempt-IsFenced_example :
    IsFenced 7 "a" 1 (exec_all (claims 50 7 "b" ∷ []) (with_run retry_run))
unfolding find_run
stale_attempt-IsFenced_example =
    stale_attempt-IsFenced (claims 50 7 "b" ∷ []) (with_run retry_run) retry_run "a" 1 retry-IsValid
      refl (omega arith)

claim_run-claim_run_example :
    ((claim_run 20 7 "a" (with_run waiting_run)).1 ≡ some held_run)
    × ((claim_run 21 7 "b" (claim_run 20 7 "a" (with_run waiting_run)).0).1 ≡ none)
    × (find_run 7 (claim_run 21 7 "b" (claim_run 20 7 "a" (with_run waiting_run)).0).0
        ≡ some held_run)
unfolding find_run
claim_run-claim_run_example =
    claim_run-claim_run 7 (with_run waiting_run) waiting_run waiting-IsValid.keyed refl 20 21 "a"
      "b" refl

retry_waits_example :
    ((claim_run 44 7 "b" (fail_or_retry 40 7 "a" 1 "boom" 5 (with_run held_run)).0).1 ≡ none)
    × (retry_run.attempt ≡ 2)
unfolding find_run find_job
retry_waits_example =
    retry_waits 7 (with_run held_run) held_run held-IsValid.keyed refl 40 "a" 1 "boom" 5 report refl
      refl refl 44 "b"

fail_queued_run-retry_example :
    (s : Run) × (find_run 7
        (fail_queued_run 41 7 "no broker" (fail_or_retry 40 7 "a" 1 "boom" 5 (with_run held_run)).0)
      ≡ some s)
    × (s.status ≡ failed)
    × (s.attempt ≡ 2)
    × (s.next_attempt_at ≡ some 45)
unfolding find_run find_job
fail_queued_run-retry_example =
    fail_queued_run-retry 7 (with_run held_run) held_run held-IsValid.keyed refl 40 "a" 1 "boom" 5
      report refl refl refl 41 "no broker"

abbrev first_line : LogLine
first_line = record { attempt = 1; seq = 1; ts = 21; level = "info"; line = "starting" }

abbrev with_log : Db
with_log = record (with_run held_run) { logs = log_row 7 1 first_line ∷ [] }

append_logs-append_logs_example :
    IsKeyed with_log.logs × (append_logs 7 1 (first_line ∷ []) with_log ≡ ok with_log)
unfolding append_logs insert_logs insert_log has_key are_levels is_level
append_logs-append_logs_example =
    append_logs-append_logs 7 1 (first_line ∷ []) (with_run held_run) with_log tt refl
