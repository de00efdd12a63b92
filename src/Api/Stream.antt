-- ===== src/Api/Stream.antt =====
-- internal/api/stream.go: following a run's log. What each query sees is a list of tables, which
-- ends where the client has gone.
use jobsys.Base.{
  ℕ, ◌+◌, ◌-◌, ◌^◌, String, Bool, true, false, Option, none, some, List, [], ◌∷◌, ◌++◌, map, length,
  ltb, if◌then◌else◌, Result, ok, err,
}
use jobsys.Base.Int.{pos, pos_part}
use jobsys.Store.Models.{
  Run, Status, queued, running, succeeded, failed, cancelled, LogLine, Db, StoreError,
}
use jobsys.Store.Runs.{get_run}
use jobsys.Store.Logs.{list_logs}
use jobsys.Worker.Env.{World, Fault}
use jobsys.Api.{Libraries, Response, write_error, store_error, query, reading, query_int}
use jobsys.Api.Runs.{next64}

abbrev pub stream_batch : ℕ
stream_batch = 500

abbrev pub is_final : Status → Bool
is_final queued = false
is_final running = false
is_final succeeded = true
is_final failed = true
is_final cancelled = true

-- `next` once these lines are sent.
unfoldable pub line_after : ℕ → List LogLine → ℕ
line_after next [] = next
line_after next (l ∷ ls) = line_after (pos_part (next64 l.seq)) ls

-- The inner loop: the lines that it sends and the `next` it leaves; `none` where the stream ends.
unfoldable pub read_lines : List (Result StoreError Db) → ℕ → ℕ → ℕ → List LogLine × Option ℕ
read_lines [] id attempt next = ([], none)
read_lines (err e ∷ reads) id attempt next = ([], none)
read_lines (ok db ∷ reads) id attempt next =
    let lines = list_logs id attempt next stream_batch db in
    let (more, end) = read_lines reads id attempt (line_after next lines) in
    if ltb (length lines) stream_batch
    then (lines, some (line_after next lines))
    else (lines ++ more, end)

pub data StreamEvent : Type 0 where
  attempt_begins : ℕ → StreamEvent
  a_line : LogLine → StreamEvent
  run_ends : Status → ℕ → Option String → StreamEvent

-- A round of the outer loop: what GetRun sees, then what each ListLogs sees.
pub record Poll : Type 0 where
  pub run_read : Result StoreError Db
  pub log_reads : List (Result StoreError Db)

abbrev pub run_of : ℕ → Result StoreError Db → Result StoreError Run
run_of id (err e) = err e
run_of id (ok db) = get_run id db

-- The outer loop, from the attempt and the `next` it has reached.
unfoldable pub follow : List Poll → ℕ → ℕ → ℕ → List StreamEvent
follow [] id attempt next = []
follow (p ∷ ps) id attempt next =
    let (lines, end) = read_lines p.log_reads id attempt next in
    let sent = map a_line lines in
    let following = follow ps id (attempt + 1) 1 in
    elim (run_of id p.run_read) [
      | err e ↦ []
      | ok run ↦ elim end [
        | none ↦ sent
        | some next' ↦
            let again = follow ps id attempt next' in
            if ltb attempt run.attempt
            then sent ++ attempt_begins (attempt + 1) ∷ following
            else if is_final run.status
            then sent ++ run_ends run.status run.attempt run.error ∷ []
            else sent ++ again
      ]
    ]

-- The answer to a request for a stream: a refusal, or events that end where the connection does.
pub data Stream : Type 0 where
  refusal : Response → Stream
  streaming : List StreamEvent → Stream

module _ (lib : Libraries) where
  -- The texts of the path and of the query parameters attempt and from_seq.
  unfoldable pub handle_stream_logs : String → String → String → Fault → List Poll → World → Stream
  handle_stream_logs path attempt from_seq getting polls w = elim (lib.parse_uuid path) [
    | none ↦ refusal (write_error 400 "invalid id" w).1
    | some id ↦ elim (query getting (reading (get_run id)) w).1 [
      | err e ↦ refusal (store_error "run" e w).1
      | ok run ↦ elim (query_int lib "attempt" attempt (pos 1) (pos 1) (pos run.attempt)) [
        | err e ↦ refusal (write_error 400 e w).1
        | ok n ↦ elim (query_int lib "from_seq" from_seq (pos 1) (pos 1) (pos (2 ^ 63 - 1))) [
          | err e ↦ refusal (write_error 400 e w).1
          | ok next ↦
              streaming (attempt_begins (pos_part n) ∷ follow polls id (pos_part n) (pos_part next))
        ]
      ]
    ]
  ]
