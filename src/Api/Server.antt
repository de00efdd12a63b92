-- ===== src/Api/Server.antt =====
-- Routes of internal/api/api.go, decodeJSON, and the probes of handlers.go: one request to the server.
-- The mux of net/http is read off its documented rules; a path is the list of its segments, where a
-- slash at the end makes an empty last one.
use jobsys.Base.{
  ℕ, ◌*◌, String, Bool, true, false, Option, none, some, List, [], ◌∷◌, ◌&&◌, ◌||◌, not, ◌<>◌,
  Result, ok, err, text_eq, if◌then◌else◌,
}
use jobsys.Store.Models.{Db}
use jobsys.Worker.Env.{World, Fault, fine, refused, unanswered}
use jobsys.Api.{Libraries, Response}
use jobsys.Api.Jobs.{
  CreateJobRequest, handle_create_job, handle_list_jobs, handle_get_job, handle_set_enabled,
}
use jobsys.Api.Runs.{
  RunCalls, LogsQuery, handle_run_job, handle_list_runs, handle_get_run, handle_list_logs,
}
use jobsys.Api.Stream.{Poll, Stream, handle_stream_logs}
pub mod Reads
pub mod Writes
pub mod Safety
pub mod Tests

pub data Route : Type 0 where
  healthz : Route
  readyz : Route
  create_job_at : Route
  list_jobs_at : Route
  get_job_at : String → Route
  run_job_at : String → Route
  pause_at : String → Route
  resume_at : String → Route
  list_runs_at : Route
  get_run_at : String → Route
  list_logs_at : String → Route
  stream_logs_at : String → Route
  web : Route
  method_not_allowed : Route

-- The patterns `GET …`, which serve_request HEAD too, from the most specific to `GET /`.
unfoldable pub get_route : List String → Route
get_route (a ∷ []) =
    if text_eq a "healthz"
    then healthz
    else if text_eq a "readyz"
    then readyz
    else if text_eq a "jobs"
    then list_jobs_at
    else if text_eq a "runs"
    then list_runs_at
    else web
get_route (a ∷ id ∷ []) =
    if text_eq id ""
    then web
    else if text_eq a "jobs"
    then get_job_at id
    else if text_eq a "runs"
    then get_run_at id
    else web
get_route (a ∷ id ∷ b ∷ []) =
    if text_eq a "runs" && (text_eq b "logs" && not (text_eq id "")) then list_logs_at id else web
get_route (a ∷ id ∷ b ∷ c ∷ []) =
    if text_eq a "runs" && (text_eq b "logs" && (text_eq c "stream" && not (text_eq id "")))
    then stream_logs_at id
    else web
get_route _ = web

unfoldable pub post_route : List String → Route
post_route (a ∷ []) = if text_eq a "jobs" then create_job_at else method_not_allowed
post_route (a ∷ id ∷ b ∷ []) =
    if text_eq a "jobs" && not (text_eq id "")
    then if text_eq b "run"
      then run_job_at id
      else if text_eq b "pause"
      then pause_at id
      else if text_eq b "resume"
      then resume_at id
      else method_not_allowed
    else method_not_allowed
post_route _ = method_not_allowed

unfoldable pub route : String → List String → Route
route method path =
    if text_eq method "GET" || text_eq method "HEAD"
    then get_route path
    else if text_eq method "POST"
    then post_route path
    else method_not_allowed

abbrev pub max_body_bytes : ℕ
max_body_bytes = 1024 * 1024

-- `decode` is the decoder on at most so many bytes, where unknown fields are errors; it answers with
-- the value and whether there is more.
unfoldable pub decode_json :
    (ℕ → String → Result String (CreateJobRequest × Bool)) → String → Result String CreateJobRequest
decode_json decode body = elim (decode max_body_bytes body) [
  | err e ↦ err ("invalid JSON body: " <> e)
  | ok (req, more) ↦ if more then err "invalid JSON body: unexpected data after object" else ok req
]

pub record Request : Type 0 where
  pub method : String
  pub path : List String
  -- A query parameter, "" where it is absent.
  pub parameter : String → String
  pub body : String

-- How the calls of a handler go, the times of s.now() and of the new row, its id, and what a stream
-- meets.
pub record Calls : Type 0 where
  pub first : Fault
  pub second : Fault
  pub now : ℕ
  pub row_id : ℕ
  pub row_time : ℕ
  pub run_calls : RunCalls
  pub polls : List Poll

-- What is written: JSON, the status of a probe, a stream, or the mux's own answer and the web UI.
pub data Answer : Type 0 where
  json : Response → Answer
  probe : ℕ → String → Answer
  events : Stream → Answer
  asset : Answer
  refused_method : Answer

-- Ping, as the call goes.
unfoldable pub handle_readyz : Fault → Answer
handle_readyz fine = probe 200 "ready"
handle_readyz (refused e) = probe 503 "unavailable"
handle_readyz (unanswered e) = probe 503 "unavailable"

module _ (lib : Libraries) (decode : ℕ → String → Result String (CreateJobRequest × Bool)) where
  abbrev pub as_json : World × Response → World × Answer
  as_json (w, r) = (w, json r)

  abbrev pub logs_query : Request → LogsQuery
  logs_query q = record {
    attempt = q.parameter "attempt";
    from_seq = q.parameter "from_seq";
    limit = q.parameter "limit";
  }

  unfoldable pub handle_route : Route → Request → Calls → World → World × Answer
  handle_route healthz q c w = (w, probe 200 "ok")
  handle_route readyz q c w = (w, handle_readyz c.first)
  handle_route create_job_at q c w =
      as_json
        (handle_create_job lib (decode_json decode q.body) c.first c.now c.row_id c.row_time w)
  handle_route list_jobs_at q c w = as_json (handle_list_jobs lib (q.parameter "limit") c.first w)
  handle_route (get_job_at id) q c w = as_json (handle_get_job lib id c.first w)
  handle_route (run_job_at id) q c w = as_json (handle_run_job lib id c.run_calls w)
  handle_route (pause_at id) q c w =
      as_json (handle_set_enabled lib false id c.first c.second c.now c.row_time w)
  handle_route (resume_at id) q c w =
      as_json (handle_set_enabled lib true id c.first c.second c.now c.row_time w)
  handle_route list_runs_at q c w =
      as_json (handle_list_runs lib (q.parameter "limit") (q.parameter "job_id") c.first w)
  handle_route (get_run_at id) q c w = as_json (handle_get_run lib id c.first w)
  handle_route (list_logs_at id) q c w =
      as_json (handle_list_logs lib id (logs_query q) c.first c.second w)
  handle_route (stream_logs_at id) q c w = (
    w,
    events (
        handle_stream_logs lib id (q.parameter "attempt") (q.parameter "from_seq") c.first c.polls
          w),
  )
  handle_route web q c w = (w, asset)
  handle_route method_not_allowed q c w = (w, refused_method)

  unfoldable pub serve_request : Request → Calls → World → World × Answer
  unfolding route
  serve_request q c w = handle_route (route q.method q.path) q c w
