-- ===== src/Api/Runs.antt =====
-- internal/api/handlers.go: the handlers of runs and of their logs.
use jobsys.Base.{
  ℕ, ◌+◌, ◌-◌, ◌^◌, String, Option, none, some, List, [], ◌∷◌, ◌<>◌, if◌then◌else◌, text_eq, ltb,
  Result, ok, err,
}
use jobsys.Base.Int.{ℤ, pos, negsuc, pos_part}
use jobsys.Store.Models.{Job, Run, LogLine}
use jobsys.Store.Jobs.{get_job}
use jobsys.Store.Runs.{create_manual_run, fail_queued_run, get_run, list_runs}
use jobsys.Store.Logs.{list_logs}
use jobsys.Worker.Env.{World, Notice, Fault, fine, refused, unanswered, dispatch}
use jobsys.Api.{
  Libraries, Response, a_run, runs, logs, write_json, write_error, store_error, query, reading,
  writing, query_int,
}

-- How the calls of handleRunJob go, the new run's id and time, and the time at which it is failed.
pub record RunCalls : Type 0 where
  pub getting : Fault
  pub creating : Fault
  pub dispatching : Fault
  pub failing : Fault
  pub id : ℕ
  pub queued_at : ℕ
  pub failed_at : ℕ

abbrev pub error_text : Fault → String
error_text fine = ""
error_text (refused e) = e
error_text (unanswered e) = e

abbrev pub notice : Job → Run → Notice
notice j r = record { run_id = r.id; job_id = r.job_id; job_type = j.type; attempt = r.attempt }

-- The end of handleRunJob, for a run that is queued.
unfoldable pub dispatch_run : RunCalls → Job → Run → World → World × Response
dispatch_run calls j r w =
    let (sent, acknowledged) = dispatch calls.dispatching (notice j r) w in
    let reason = "dispatch failed: " <> error_text calls.dispatching in
    if acknowledged
    then write_json 202 (a_run r) sent
    else write_error 502 "could not dispatch run"
        (query {0} calls.failing (λ db. (fail_queued_run calls.failed_at r.id reason db, ok tt))
          sent).0

abbrev pub next64 : ℕ → ℤ
next64 n = if ltb (n + 1) (2 ^ 63) then pos (n + 1) else negsuc (2 ^ 63 - 1)

-- The Seq after the last line, or from_seq.
unfoldable pub next_seq : ℕ → List LogLine → ℤ
next_seq from_seq [] = pos from_seq
next_seq from_seq (l ∷ ls) =
    let rest = next_seq from_seq ls in elim ls [ [] ↦ next64 l.seq | m ∷ ms ↦ rest ]

-- The texts of the query parameters attempt, from_seq and limit.
pub record LogsQuery : Type 0 where
  pub attempt : String
  pub from_seq : String
  pub limit : String

module _ (lib : Libraries) where
  unfoldable pub handle_run_job : String → RunCalls → World → World × Response
  handle_run_job path calls w = elim (lib.parse_uuid path) [
    | none ↦ write_error 400 "invalid id" w
    | some id ↦
        let (w', found) = query calls.getting (reading (get_job id)) w in
        elim found [
          | err e ↦ store_error "job" e w'
          | ok j ↦
              let (w'', answer) =
                query calls.creating
                  (λ db. writing db (create_manual_run calls.id j.id calls.queued_at db)) w' in
              elim answer [ err e ↦ store_error "job" e w'' | ok r ↦ dispatch_run calls j r w'' ]
        ]
  ]

  -- The query parameter job_id; the canonical text of a uuid names the same row.
  abbrev pub job_filter : String → Result String (Option ℕ)
  job_filter raw =
      if text_eq raw ""
      then ok none
      else elim (lib.parse_uuid raw) [ none ↦ err "invalid job_id" | some id ↦ ok (some id) ]

  unfoldable pub handle_list_runs : String → String → Fault → World → World × Response
  handle_list_runs limit job_id listing w =
      elim (query_int lib "limit" limit (pos 50) (pos 1) (pos 200)) [
        | err e ↦ write_error 400 e w
        | ok n ↦ elim (job_filter job_id) [
          | err e ↦ write_error 400 e w
          | ok filter ↦
              let (w', answer) =
                query listing (reading (λ db. ok (list_runs filter (pos_part n) db))) w in
              elim answer [ err e ↦ store_error "runs" e w' | ok rs ↦ write_json 200 (runs rs) w' ]
        ]
      ]

  unfoldable pub handle_get_run : String → Fault → World → World × Response
  handle_get_run path getting w = elim (lib.parse_uuid path) [
    | none ↦ write_error 400 "invalid id" w
    | some id ↦
        let (w', answer) = query getting (reading (get_run id)) w in
        elim answer [ err e ↦ store_error "run" e w' | ok r ↦ write_json 200 (a_run r) w' ]
  ]

  abbrev pub logs_page : Run → ℤ → ℤ → ℤ → Fault → World → World × Response
  logs_page r attempt from_seq limit listing w =
      let (w', answer) =
        query listing
          (reading
            (λ db. ok (list_logs r.id (pos_part attempt) (pos_part from_seq) (pos_part limit) db)))
          w in
      elim answer [
        | err e ↦ store_error "run" e w'
        | ok ls ↦
            write_json 200
              (logs (record {
                run_id = r.id;
                attempt = pos_part attempt;
                status = r.status;
                lines = ls;
                next_seq = next_seq (pos_part from_seq) ls;
              }))
              w'
      ]

  unfoldable pub handle_list_logs : String → LogsQuery → Fault → Fault → World → World × Response
  handle_list_logs path q getting listing w = elim (lib.parse_uuid path) [
    | none ↦ write_error 400 "invalid id" w
    | some id ↦
        let (w', found) = query getting (reading (get_run id)) w in
        elim found [
          | err e ↦ store_error "run" e w'
          | ok r ↦
              elim (query_int lib "attempt" q.attempt (pos r.attempt) (pos 1) (pos r.attempt)) [
                | err e ↦ write_error 400 e w'
                | ok attempt ↦
                    elim (query_int lib "from_seq" q.from_seq (pos 1) (pos 1) (pos (2 ^ 63 - 1))) [
                      | err e ↦ write_error 400 e w'
                      | ok from_seq ↦
                          elim (query_int lib "limit" q.limit (pos 500) (pos 1) (pos 1000)) [
                            | err e ↦ write_error 400 e w'
                            | ok limit ↦ logs_page r attempt from_seq limit listing w'
                          ]
                    ]
              ]
        ]
  ]
