-- ===== src/Api/Server/Safety.antt =====
-- What a request does to the tables, whatever it asks for.
use jobsys.Base.{
  ℕ, ◌≡◌, refl, ap, ◌⊎◌, inl, inr, String, Bool, true, false, List, Result, text_eq, Bool-cases,
  arith,
}
use jobsys.Store.Follows.{Follows, Follows-same}
use jobsys.Store.Histories.{IsValid, exec_all-IsValid}
use jobsys.Worker.Env.{World}
use jobsys.Api.{Libraries, Response}
use jobsys.Api.Jobs.{CreateJobRequest}
use jobsys.Api.Server.{
  Route, healthz, readyz, create_job_at, list_jobs_at, get_job_at, run_job_at, pause_at, resume_at,
  list_runs_at, get_run_at, list_logs_at, stream_logs_at, web, method_not_allowed, Request, Calls,
  as_json, decode_json, logs_query, route, get_route, handle_route, serve_request,
}
use jobsys.Api.Server.Reads.{
  handle_get_job-world, handle_list_jobs-world, handle_list_runs-world, handle_get_run-world,
  handle_list_logs-world,
}
use jobsys.Api.Server.Writes.{
  handle_create_job-Follows, handle_set_enabled-Follows, handle_run_job-Follows,
}

-- What is not served by a POST.
abbrev pub reads_only : Route → Bool
reads_only create_job_at = false
reads_only (run_job_at id) = false
reads_only (pause_at id) = false
reads_only (resume_at id) = false
reads_only _ = true

get_route-reads_only : (path : List String) → reads_only (get_route path) ≡ true
unfolding get_route
get_route-reads_only path = ground arith

route-reads_only :
    (method : String) (path : List String)
    → text_eq method "POST" ≡ false
    → reads_only (route method path) ≡ true
unfolding route
route-reads_only method path h = let get = get_route-reads_only path in ground arith

module _ (lib : Libraries) (decode : ℕ → String → Result String (CreateJobRequest × Bool)) where
  as_json-world : (a : World × Response) → (as_json lib decode a).0 ≡ a.0
  as_json-world a = refl

  pub handle_route-world :
      (r : Route) (q : Request) (c : Calls) (w : World)
      → reads_only r ≡ true
      → (handle_route lib decode r q c w).0 ≡ w
  unfolding handle_route
  handle_route-world healthz q c w h = refl
  handle_route-world readyz q c w h = refl
  handle_route-world create_job_at q c w h = cc
  handle_route-world list_jobs_at q c w h =
      handle_list_jobs-world lib (q.parameter "limit") c.first w
  handle_route-world (get_job_at id) q c w h = handle_get_job-world lib id c.first w
  handle_route-world (run_job_at id) q c w h = cc
  handle_route-world (pause_at id) q c w h = cc
  handle_route-world (resume_at id) q c w h = cc
  handle_route-world list_runs_at q c w h =
      handle_list_runs-world lib (q.parameter "limit") (q.parameter "job_id") c.first w
  handle_route-world (get_run_at id) q c w h = handle_get_run-world lib id c.first w
  handle_route-world (list_logs_at id) q c w h =
      handle_list_logs-world lib id (logs_query lib decode q) c.first c.second w
  handle_route-world (stream_logs_at id) q c w h = refl
  handle_route-world web q c w h = refl
  handle_route-world method_not_allowed q c w h = refl

  read_only :
      (r : Route) (q : Request) (c : Calls) (w : World)
      → reads_only r ≡ true
      → Follows w.db (handle_route lib decode r q c w).0.db
  read_only r q c w h = Follows-same _ _ (ap (λ w. w.db) (handle_route-world r q c w h))

  pub handle_route-Follows :
      (r : Route) (q : Request) (c : Calls) (w : World)
      → Follows w.db (handle_route lib decode r q c w).0.db
  handle_route-Follows create_job_at q c w =
      unfold handle_route in
      handle_create_job-Follows lib (decode_json decode q.body) c.first c.now c.row_id c.row_time w
  handle_route-Follows (run_job_at id) q c w =
      unfold handle_route in handle_run_job-Follows lib id c.run_calls w
  handle_route-Follows (pause_at id) q c w =
      unfold handle_route in
      handle_set_enabled-Follows lib false id c.first c.second c.now c.row_time w
  handle_route-Follows (resume_at id) q c w =
      unfold handle_route in
      handle_set_enabled-Follows lib true id c.first c.second c.now c.row_time w
  handle_route-Follows healthz q c w = read_only healthz q c w refl
  handle_route-Follows readyz q c w = read_only readyz q c w refl
  handle_route-Follows list_jobs_at q c w = read_only list_jobs_at q c w refl
  handle_route-Follows (get_job_at id) q c w = read_only (get_job_at id) q c w refl
  handle_route-Follows list_runs_at q c w = read_only list_runs_at q c w refl
  handle_route-Follows (get_run_at id) q c w = read_only (get_run_at id) q c w refl
  handle_route-Follows (list_logs_at id) q c w = read_only (list_logs_at id) q c w refl
  handle_route-Follows (stream_logs_at id) q c w = read_only (stream_logs_at id) q c w refl
  handle_route-Follows web q c w = read_only web q c w refl
  handle_route-Follows method_not_allowed q c w = read_only method_not_allowed q c w refl

  -- Whatever a request asks for, whatever text it carries, and however its calls of the database and
  -- the broker fare, the tables stay well formed; and a request that is not a POST leaves the tables
  -- and the topic as they are.
  pub serve_request-IsValid :
      (q : Request) (c : Calls) (w : World)
      → IsValid w.db
      → IsValid (serve_request lib decode q c w).0.db
        × (((serve_request lib decode q c w).0 ≡ w) ⊎ (text_eq q.method "POST" ≡ true))
  unfolding serve_request
  serve_request-IsValid q c w v =
      let (cs, later) = handle_route-Follows (route q.method q.path) q c w in
      (
        rw later (exec_all-IsValid cs w.db v),
        elim (Bool-cases (text_eq q.method "POST")) [
          | inl t ↦ inr t
          | inr f ↦ inl (
              handle_route-world (route q.method q.path) q c w (route-reads_only q.method q.path f))
        ],
      )
