-- ===== src/Api/Tests.antt =====
-- Requests to the API at concrete values.
use jobsys.Base.{suc, ◌≡◌, refl, none, some, [], ◌∷◌, ok}
use jobsys.Base.Int.{pos}
use jobsys.Store.Models.{NewJob, Run, new_run, manual}
use jobsys.Store.Table.{find_job, find_run}
use jobsys.Store.Jobs.{created}
use jobsys.Job.Payload.{GenerateText, validate, validate_job, parse_generate_text}
use jobsys.Job.Cron.{Clockwork, next_run}
use jobsys.Worker.Env.{World, refused}
use jobsys.Api.{Libraries}
use jobsys.Api.Jobs.{CreateJobRequest, new_job}
use jobsys.Api.Offers.{IsOffer, new_job-IsOffer}
use jobsys.Api.Runs.{RunCalls, handle_run_job}
use jobsys.Api.Dispatching.{calls, left, handle_run_job-dispatch_run}

abbrev moments : Clockwork
moments = record {
  Location = Unit {0};
  Schedule = Unit {0};
  load_location = λ tz. some tt;
  parse_standard = λ expr. ok tt;
  next = λ s loc after. some (suc after);
}

abbrev two_rows : GenerateText
two_rows = record {
  lines = pos 2;
  prefix = "row";
  delay_ms = pos 0;
  fail_at = pos 0;
  fail_attempts = pos 0;
}

abbrev pub plain : Libraries
plain = record {
  trim_space = λ s. s;
  atoi = λ s. none;
  quote = λ s. s;
  parse_uuid = λ s. some 1;
  decode = λ s. ok two_rows;
  clockwork = moments;
}

abbrev pub hourly_report : CreateJobRequest
hourly_report = record {
  name = "report";
  type = "generate_text";
  payload = "";
  cron_expr = "@hourly";
  timezone = "";
  max_retries = some (pos 2);
  timeout_sec = none;
}

abbrev offer : NewJob
offer = record {
  name = "report";
  type = "generate_text";
  payload = "{}";
  cron_expr = some "@hourly";
  timezone = "UTC";
  next_run_at = some 101;
  max_retries = 2;
  timeout_sec = 300;
}

accepted : new_job plain 100 hourly_report ≡ ok offer
unfolding new_job next_run validate_job parse_generate_text validate
accepted = refl

new_job-IsOffer_example : IsOffer plain 100 offer
new_job-IsOffer_example = new_job-IsOffer plain 100 hourly_report offer accepted

abbrev empty_world : World
empty_world = record { db = record { jobs = []; runs = []; logs = [] }; topic = []; files = [] }

abbrev pub stored_world : World
stored_world = record empty_world {
  db = record { jobs = created 1 100 offer ∷ []; runs = []; logs = [] };
}

abbrev pub no_broker : RunCalls
no_broker = calls plain "1" stored_world 1 (created 1 100 offer) 7 200 201 (refused "no broker")

abbrev queued_run : Run
queued_run = new_run 7 1 200 manual 200

handle_run_job-dispatch_run_example :
    let out = handle_run_job plain "1" no_broker stored_world in
    (out.1.status ≡ 502)
    × ((find_run 7 out.0.db ≡ some (left (refused "no broker") 201 queued_run))
        × (out.0.topic ≡ []))
unfolding find_job find_run created
handle_run_job-dispatch_run_example =
    handle_run_job-dispatch_run plain "1" stored_world 1 (created 1 100 offer) 7 200 201
      (refused "no broker") refl refl refl refl
