-- ===== src/Api/Jobs.antt =====
-- internal/api/handlers.go: the handlers of jobs.
use jobsys.Base.{
  ℕ, ◌*◌, String, Bool, true, false, Option, none, some, ◌<>◌, if◌then◌else◌, text_eq, Result, ok,
  err, ◌>>=◌,
}
use jobsys.Base.Int.{ℤ, pos, pos_part}
use jobsys.Store.Models.{Job, NewJob, unavailable}
use jobsys.Store.Jobs.{create_job, list_jobs, get_job, set_job_enabled}
use jobsys.Job.Payload.{validate_job, outside}
use jobsys.Job.Cron.{next_run}
use jobsys.Worker.Env.{World, Fault}
use jobsys.Api.{
  Libraries, Response, a_job, jobs, write_json, write_error, store_error, query, reading, writing,
  query_int,
}

abbrev pub default_max_retries : ℕ
default_max_retries = 3

abbrev pub max_max_retries : ℕ
max_max_retries = 10

abbrev pub default_timeout_sec : ℕ
default_timeout_sec = 300

abbrev pub max_timeout_sec : ℕ
max_timeout_sec = 24 * 60 * 60

-- A payload that is absent is the empty text.
pub record CreateJobRequest : Type 0 where
  pub name : String
  pub type : String
  pub payload : String
  pub cron_expr : String
  pub timezone : String
  pub max_retries : Option ℤ
  pub timeout_sec : Option ℤ

abbrev pub or_default : String → String → String
or_default text default = if text_eq text "" then default else text

abbrev pub checked_type : Option String → Result String (Unit {0})
checked_type none = ok tt
checked_type (some e) = err e

module _ (lib : Libraries) where
  open lib use {trim_space, quote, decode, clockwork}

  abbrev pub check_timezone : String → Result String (Unit {0})
  check_timezone tz = elim (clockwork.load_location tz) [
    | none ↦ err ("unknown timezone " <> quote tz)
    | some loc ↦ if text_eq tz "Local" then err ("unknown timezone " <> quote tz) else ok tt
  ]

  -- cron_expr and next_run_at of the job.
  abbrev pub new_schedule : String → String → ℕ → Result String (Option String × Option ℕ)
  new_schedule expr tz now =
      if text_eq expr ""
      then ok (none, none)
      else (do next ← next_run quote clockwork expr tz now; ok (some expr, some next))

  abbrev pub new_max_retries : Option ℤ → Result String ℕ
  new_max_retries none = ok default_max_retries
  new_max_retries (some n) =
      if outside (pos 0) (pos max_max_retries) n
      then err "max_retries must be between 0 and 10"
      else ok (pos_part n)

  abbrev pub new_timeout_sec : Option ℤ → Result String ℕ
  new_timeout_sec none = ok default_timeout_sec
  new_timeout_sec (some n) =
      if outside (pos 1) (pos max_timeout_sec) n
      then err "timeout_sec must be between 1 and 86400"
      else ok (pos_part n)

  unfoldable pub new_job : ℕ → CreateJobRequest → Result String NewJob
  new_job now req =
      let name = trim_space req.name in
      let payload = or_default req.payload "{}" in
      let tz = or_default req.timezone "UTC" in
      if text_eq name "" then err "name is required" else do
        known ← checked_type (validate_job decode quote req.type payload)
        zone ← check_timezone tz
        schedule ← new_schedule (trim_space req.cron_expr) tz now
        max_retries ← new_max_retries req.max_retries
        timeout_sec ← new_timeout_sec req.timeout_sec
        ok (record {
          name = name;
          type = req.type;
          payload = payload;
          cron_expr = schedule.0;
          timezone = tz;
          next_run_at = schedule.1;
          max_retries = max_retries;
          timeout_sec = timeout_sec;
        })

  -- A request: its body, decoded or the error of decodeJSON, how the calls go, the time of
  -- s.now(), and the id and time of the new row.
  unfoldable pub handle_create_job :
      Result String CreateJobRequest → Fault → ℕ → ℕ → ℕ → World → World × Response
  handle_create_job request creating now id created_at w = elim request [
    | err e ↦ write_error 400 e w
    | ok req ↦ elim (new_job now req) [
      | err e ↦ write_error 400 e w
      | ok n ↦
          let (w', answer) = query creating (λ db. writing db (create_job id created_at n db)) w in
          elim answer [ err e ↦ store_error "job" e w' | ok j ↦ write_json 201 (a_job j) w' ]
    ]
  ]

  unfoldable pub handle_list_jobs : String → Fault → World → World × Response
  handle_list_jobs limit listing w = elim (query_int lib "limit" limit (pos 50) (pos 1) (pos 200)) [
    | err e ↦ write_error 400 e w
    | ok n ↦
        let (w', answer) = query listing (reading (λ db. ok (list_jobs (pos_part n) db))) w in
        elim answer [ err e ↦ store_error "jobs" e w' | ok js ↦ write_json 200 (jobs js) w' ]
  ]

  unfoldable pub handle_get_job : String → Fault → World → World × Response
  handle_get_job path getting w = elim (lib.parse_uuid path) [
    | none ↦ write_error 400 "invalid id" w
    | some id ↦
        let (w', answer) = query getting (reading (get_job id)) w in
        elim answer [ err e ↦ store_error "job" e w' | ok j ↦ write_json 200 (a_job j) w' ]
  ]

  -- The time that the schedule goes on from, if it does.
  abbrev pub resumed : Bool → ℕ → Job → Result String (Option ℕ)
  resumed false now j = ok none
  resumed true now j = elim j.cron_expr [
    | none ↦ ok none
    | some expr ↦ (do next ← next_run quote clockwork expr j.timezone now; ok (some next))
  ]

  unfoldable pub handle_set_enabled :
      Bool → String → Fault → Fault → ℕ → ℕ → World → World × Response
  handle_set_enabled enabled path getting setting now updated_at w = elim (lib.parse_uuid path) [
    | none ↦ write_error 400 "invalid id" w
    | some id ↦
        let (w', found) = query getting (reading (get_job id)) w in
        elim found [
          | err e ↦ store_error "job" e w'
          | ok j ↦ elim (resumed enabled now j) [
            | err e ↦ store_error "job" (unavailable ("compute next run: " <> e)) w'
            | ok next ↦
                let (w'', answer) = query setting (set_job_enabled updated_at id enabled next) w' in
                elim answer [
                  | err e ↦ store_error "job" e w''
                  | ok k ↦ write_json 200 (a_job k) w''
                ]
          ]
        ]
  ]
