-- ===== src/Scheduler/Tests.antt =====
-- A job with a schedule, its firing and a tick at concrete values.
use jobsys.Base.{ℕ, suc, ◌≡◌, refl, String, true, some, [], ◌∷◌, Result, ok, err, arith}
use jobsys.Store.Models.{Job, Db}
use jobsys.Store.Schedule.{
  DueJob, Firing, due_jobs, fire_due_jobs, fire_all, fire_job, queue_occurrence, advance,
}
use jobsys.Base.{sort_with}
use jobsys.Store.Firing.{no_one, fire_due_jobs-due_jobs}
use jobsys.Job.Cron.{Clockwork}
use jobsys.Worker.Env.{World, fine, refused}
use jobsys.Scheduler.{Round, next}

abbrev report : Job
report = record {
  id = 1;
  name = "report";
  type = "generate_text";
  payload = "{}";
  cron_expr = some "@hourly";
  timezone = "UTC";
  next_run_at = some 50;
  enabled = true;
  max_retries = 1;
  timeout_sec = 300;
  created_at = 5;
  updated_at = 5;
}

abbrev overdue : Db
overdue = record { jobs = report ∷ []; runs = []; logs = [] }

-- Every job fires again one moment after the time asked about.
abbrev pub moments : Clockwork
moments = record {
  Location = Unit {0};
  Schedule = Unit {0};
  load_location = λ tz. some tt;
  parse_standard = λ expr. ok tt;
  next = λ s loc after. some (suc after);
}

abbrev soon : DueJob → Result String ℕ
soon d = ok 101

abbrev fired : Firing
fired = elim (fire_due_jobs 100 (λ d. 7) soon no_one 100 overdue) [
  | ok s ↦ s
  | err e ↦ record { db = overdue; fired = []; next_errors = [] }
]

fire_due_jobs-due_jobs_example : due_jobs 100 no_one 100 fired.db ≡ []
unfolding fire_due_jobs fire_all due_jobs sort_with fire_job queue_occurrence advance
fire_due_jobs-due_jobs_example =
    fire_due_jobs-due_jobs 100 (λ d. 7) soon 100 overdue fired (λ d t e. ground arith) (omega arith)
      refl 100

abbrev pub round : Round
round = record {
  firing = fine;
  now = 100;
  locked = no_one;
  clock = 100;
  new_id = λ d. 7;
  dispatching = λ id. refused "no broker";
}

abbrev at_noon : World
at_noon = record { db = overdue; topic = []; files = [] }
