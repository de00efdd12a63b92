-- ===== src/Store/Models.antt =====
-- internal/store/models.go and the tables of migrations/001_init.sql. An id is the 128-bit value of
-- a uuid, a time the number of microseconds since an epoch.
use jobsys.Base.{ℕ, String, Bool, true, false, Option, none, some, List, leb, ltb, ◌+◌}

pub data Status : Type 0 where
  queued running succeeded failed cancelled : Status

pub data Trigger : Type 0 where
  schedule manual : Trigger

pub record Job : Type 0 where
  pub id : ℕ
  pub name : String
  pub type : String
  pub payload : String
  pub cron_expr : Option String
  pub timezone : String
  pub next_run_at : Option ℕ
  pub enabled : Bool
  pub max_retries : ℕ
  pub timeout_sec : ℕ
  pub created_at : ℕ
  pub updated_at : ℕ

pub record NewJob : Type 0 where
  pub name : String
  pub type : String
  pub payload : String
  pub cron_expr : Option String
  pub timezone : String
  pub next_run_at : Option ℕ
  pub max_retries : ℕ
  pub timeout_sec : ℕ

pub record Run : Type 0 where
  pub id : ℕ
  pub job_id : ℕ
  pub scheduled_time : ℕ
  pub trigger : Trigger
  pub status : Status
  pub attempt : ℕ
  pub worker_id : Option String
  pub queued_at : ℕ
  pub started_at : Option ℕ
  pub finished_at : Option ℕ
  pub last_heartbeat_at : Option ℕ
  pub next_attempt_at : Option ℕ
  pub error : Option String
  pub output : Option String

pub record Redispatch : Type 0 where
  pub run_id : ℕ
  pub job_id : ℕ
  pub job_type : String
  pub status : Status
  pub attempt : ℕ

pub record LogLine : Type 0 where
  pub attempt : ℕ
  pub seq : ℕ
  pub ts : ℕ
  pub level : String
  pub line : String

-- A row of job_logs.
pub record LogRow : Type 0 where
  pub run_id : ℕ
  pub attempt : ℕ
  pub seq : ℕ
  pub ts : ℕ
  pub level : String
  pub line : String

-- What Postgres holds.
pub record Db : Type 0 where
  pub jobs : List Job
  pub runs : List Run
  pub logs : List LogRow

-- Why a statement fails, and the package's own ErrNotFound.
pub data StoreError : Type 0 where
  not_found : StoreError
  foreign_key_violation : StoreError
  unique_violation : StoreError
  check_violation : StoreError
  unavailable : String → StoreError

abbrev pub is_queued : Status → Bool
is_queued queued = true
is_queued _ = false

abbrev pub is_running : Status → Bool
is_running running = true
is_running _ = false

-- `t <= now()`, which a NULL does not satisfy.
abbrev pub elapsed : Option ℕ → ℕ → Bool
elapsed none now = false
elapsed (some t) now = leb t now

-- `t IS NULL OR t <= now()`.
abbrev pub null_or_elapsed : Option ℕ → ℕ → Bool
null_or_elapsed none now = true
null_or_elapsed (some t) now = leb t now

-- `t < now() - make_interval(secs => d)`, which a NULL does not satisfy.
abbrev pub older_than : Option ℕ → ℕ → ℕ → Bool
older_than none d now = false
older_than (some t) d now = ltb (t + d) now

-- A row that INSERT INTO job_runs (id, job_id, scheduled_time, trigger) makes, with the defaults
-- of the other columns.
abbrev pub new_run : ℕ → ℕ → ℕ → Trigger → ℕ → Run
new_run id job_id scheduled_time trigger now = record {
  id = id;
  job_id = job_id;
  scheduled_time = scheduled_time;
  trigger = trigger;
  status = queued;
  attempt = 1;
  worker_id = none;
  queued_at = now;
  started_at = none;
  finished_at = none;
  last_heartbeat_at = none;
  next_attempt_at = none;
  error = none;
  output = none;
}
