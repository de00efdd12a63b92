-- ===== src/Ctl/Show.antt =====
-- jobs, status, run and the output of create, cmd/jobctl/main.go: the rows of a table, and what is
-- printed of a run or a new job, where the server answers with what was asked for. The layout of a
-- time, the text of an id and the number of line breaks in a text are parameters.
use jobsys.Base.{
  ℕ, String, Bool, Option, none, some, List, [], ◌∷◌, ◌++◌, map, ◌<>◌, decimal, Result, ok, ◌>>=◌,
}
use jobsys.Store.Models.{Job, Run}
use jobsys.Api.{a_job, Response, Body, jobs, a_run}
use jobsys.Ctl.Client.{do_request}
use jobsys.Ctl.Status.{status_text, trigger_text}

abbrev pub jobs_of : Body → List Job
jobs_of (jobs js) = js
jobs_of _ = []

abbrev pub row_if : String → Option String → List (String × String)
row_if key none = []
row_if key (some value) = (key, value) ∷ []

module _ (date_time : ℕ → String) (uuid : ℕ → String) where
  abbrev pub schedule_of : Job → String
  schedule_of j = elim j.cron_expr [
    | none ↦ "manual"
    | some expr ↦ expr <> (" (" <> (j.timezone <> ")"))
  ]

  abbrev pub next_run_of : Job → String
  next_run_of j = elim j.next_run_at [ none ↦ "-" | some t ↦ date_time t ]

  abbrev pub job_row : Job → List String
  job_row j = uuid j.id ∷ j.name ∷ schedule_of j ∷ next_run_of j ∷ []

  unfoldable pub job_table : List Job → List (List String)
  job_table js = ("ID" ∷ "NAME" ∷ "SCHEDULE" ∷ "NEXT RUN" ∷ []) ∷ map job_row js

  unfoldable pub show_jobs :
      (ℕ → String) → Result String Response → Result String (List (List String))
  show_jobs status_line answer = do
    body ← do_request status_line "GET /jobs" answer
    ok (job_table (jobs_of body))

  module _ (line_breaks : String → ℕ) where
    abbrev pub time_of : Option ℕ → Option String
    time_of none = none
    time_of (some t) = some (date_time t)

    abbrev pub output_of : Option String → Option String
    output_of none = none
    output_of (some text) = some (decimal (line_breaks text) <> " lines")

    unfoldable pub status_rows : Run → List (String × String)
    unfolding trigger_text
    status_rows r =
        ("run", uuid r.id)
        ∷ ("job", uuid r.job_id)
        ∷ ("status", status_text r.status)
        ∷ ("attempt", decimal r.attempt)
        ∷ ("trigger", trigger_text r.trigger)
        ∷ ("scheduled", date_time r.scheduled_time)
        ∷ (row_if "worker" r.worker_id
            ++ row_if "started" (time_of r.started_at)
            ++ row_if "finished" (time_of r.finished_at)
            ++ row_if "retry at" (time_of r.next_attempt_at)
            ++ row_if "error" r.error
            ++ row_if "output" (output_of r.output))

    abbrev pub rows_of : Body → List (String × String)
    rows_of (a_run r) = status_rows r
    rows_of _ = []

    unfoldable pub show_status :
        (ℕ → String) → String → Result String Response → Result String (List (String × String))
    show_status status_line run_id answer = do
      body ← do_request status_line ("GET /runs/" <> run_id) answer
      ok (rows_of body)

  abbrev pub run_id_of : Body → String
  run_id_of (a_run r) = uuid r.id
  run_id_of _ = ""

  -- The id that is printed, and whether the run is followed then.
  unfoldable pub run_job :
      (ℕ → String) → String → Bool → Result String Response → Result String (String × Bool)
  run_job status_line job_id follow answer = do
    body ← do_request status_line ("POST /jobs/" <> (job_id <> "/run")) answer
    ok (run_id_of body, follow)

  -- What create prints of the job that it has made, `quote` being %q: its id, and when its schedule
  -- starts. A job without a cron expression has no next run.
  abbrev pub first_run_line : (String → String) → Job → Option String
  first_run_line quote j = elim j.next_run_at [
    | none ↦ none
    | some t ↦ elim j.cron_expr [
      | none ↦ none
      | some expr ↦ some ("scheduled " <> (quote expr <> ("; first run at " <> date_time t)))
    ]
  ]

  abbrev pub created_lines : (String → String) → Body → String × Option String
  created_lines quote (a_job j) = (uuid j.id, first_run_line quote j)
  created_lines quote _ = ("", none)

  unfoldable pub show_created :
      (ℕ → String)
      → (String → String)
      → Result String Response
      → Result String (String × Option String)
  show_created status_line quote answer = do
    body ← do_request status_line "POST /jobs" answer
    ok (created_lines quote body)
