-- ===== src/Ctl/Tests.antt =====
-- The client at concrete values.
use jobsys.Base.{
  ℕ, suc, ◌≡◌, refl, String, true, err, Option, none, some, List, [], ◌∷◌, map, ok, arith, text_eq,
  if◌then◌else◌, All, decimal, sort_with,
}
use jobsys.Base.Int.{ℤ, pos, negsuc}
use jobsys.Store.Models.{Run, NewJob, LogRow, failed, new_run, manual}
use jobsys.Store.Table.{find_run}
use jobsys.Store.Runs.{get_run}
use jobsys.Store.LogKeys.{IsKeyed}
use jobsys.Store.Logs.{list_logs, log_line, has_key}
use jobsys.Job.Payload.{GenerateText}
use jobsys.Job.Cron.{Clockwork}
use jobsys.Worker.Env.{World, fine}
use jobsys.Api.{Libraries, query, query_int}
use jobsys.Api.Stream.{attempt_begins, handle_stream_logs, read_lines, follow, line_after}
use jobsys.Api.Following.{polls, transcript}
use jobsys.Api.Jobs.{new_job}
use jobsys.Job.Payload.{validate_job, parse_generate_text, validate}
use jobsys.Ctl.Create.{
  Flags, Field, payload_of, payload_fields, payload_in, int_in, text_in, create_request,
}
use jobsys.Ctl.Create.Accepted.{requested, create_request-new_job}
use jobsys.Ctl.Bytes.{Bytes, codes}
use jobsys.Ctl.Status.{status_text}
use jobsys.Ctl.Wire.{Marshal, wire, Piece, event_of, ping, write_all}
use jobsys.Ctl.Follow.{Unmarshal, stream}
use jobsys.Ctl.Transcripts.{ReadsBack, printed_of, IsBodyOf}
use jobsys.Ctl.Commands.{Tools, Answers, parsed, exits, followed, jobctl, exit_code}
use jobsys.Ctl.Exit.{jobctl-transcript}
use jobsys.Ctl.Logs.{complete, print_log}
use jobsys.Ctl.Logs.Paging.{IsReadBack, answers, print_log-list_logs}

abbrev trim_one : Bytes → Bytes
trim_one [] = []
trim_one (c ∷ s) = s

abbrev moments : Clockwork
moments = record {
  Location = Unit {0};
  Schedule = Unit {0};
  load_location = λ tz. some tt;
  parse_standard = λ expr. ok tt;
  next = λ s loc after. some (suc after);
}

abbrev no_rows : GenerateText
no_rows = record {
  lines = pos 1;
  prefix = "";
  delay_ms = pos 0;
  fail_at = pos 0;
  fail_attempts = pos 0;
}

abbrev small_numbers : String → Option ℤ
small_numbers s =
    if text_eq s "1"
    then some (pos 1)
    else if text_eq s "3"
    then some (pos 3)
    else if text_eq s "1000"
    then some (pos 1000)
    else none

abbrev plain : Libraries
plain = record {
  trim_space = λ s. s;
  atoi = small_numbers;
  quote = λ s. s;
  parse_uuid = λ s. some 7;
  decode = λ s. ok no_rows;
  clockwork = moments;
}

abbrev failed_run : Run
failed_run = record (new_run 7 1 10 manual 10) {
  status = failed;
  error = some "boom";
  finished_at = some 30;
}

abbrev second_line : LogRow
second_line = record { run_id = 7; attempt = 1; seq = 2; ts = 21; level = "info"; line = "row 1" }

abbrev over : World
over = record {
  db = record { jobs = []; runs = failed_run ∷ []; logs = second_line ∷ [] };
  topic = [];
  files = [];
}

thousand : IsReadBack plain 1000
unfolding decimal
thousand = (omega arith, refl)

one : IsReadBack plain 1
unfolding decimal
one = (omega arith, refl)

three : IsReadBack plain 3
unfolding decimal
three = (omega arith, refl)

abbrev codes_only : ℕ → String
codes_only n = "500 Internal Server Error"

keyed : IsKeyed over.db.logs
unfolding has_key
keyed = (refl, tt)

there : find_run 7 over.db ≡ some failed_run
unfolding find_run
there = refl

print_log-list_logs_example :
    print_log codes_only "7"
      (answers plain thousand "7" over failed_run refl there keyed one (three, tt) codes_only 2)
      (pos 1)
    ≡ (list_logs 7 1 1 1 over.db, complete)
print_log-list_logs_example =
    print_log-list_logs plain thousand "7" over failed_run refl there keyed one (three, tt)
      codes_only 2 (omega arith)

abbrev marshal : Marshal
marshal = record {
  attempt = λ n. codes "1";
  line = λ l. codes "{}";
  end = λ status attempt error. codes "[]";
}

abbrev unmarshal : Unmarshal
unmarshal = record {
  attempt = λ t. 1;
  line = λ t. ok (log_line second_line);
  end = λ t. ok (record { status = "FAILED"; attempt = 1; error = some "boom" });
}

abbrev sent : List Piece
sent =
    event_of (codes "attempt") (codes "1")
    ∷ ping
    ∷ event_of (codes "line") (codes "{}")
    ∷ event_of (codes "end") (codes "[]")
    ∷ []

body : IsBodyOf marshal sent (handle_stream_logs plain "7" "" "" fine (polls 1 2 over.db) over)
unfolding handle_stream_logs query query_int follow read_lines get_run find_run list_logs sort_with
    line_after wire
body = refl

heard : All (ReadsBack marshal unmarshal) (attempt_begins 1 ∷ transcript over.db failed_run 0 1 1)
unfolding transcript list_logs sort_with status_text
heard = (refl, (refl, (refl, tt)))

-- The command line `jobctl logs -f 7`.
abbrev tools : Tools
tools = record {
  parse_args = λ args. parsed args;
  parse_create = λ args. exits 2;
  parse_follow = λ args. parsed (true, "7" ∷ []);
  status_line = decimal;
  date_time = decimal;
  uuid = decimal;
  quote = λ s. s;
  line_breaks = λ s. 0;
  marshal = λ fs. "{}";
  json = unmarshal;
  trim_space = trim_one;
}

abbrev server : Answers
server = record {
  jobs = err "down";
  create = λ request. err "down";
  run_job = λ id. err "down";
  status = λ id. err "down";
  pages = λ id. [];
  stream = λ id. ok (stream (write_all sent) none);
}

jobctl-transcript_example :
    let out = jobctl tools server ("logs" ∷ "-f" ∷ "7" ∷ []) in
    (out.0
      ≡ followed (map printed_of (attempt_begins 1 ∷ transcript over.db failed_run 0 1 1)) ∷ [])
    × (exit_code out.1 ≡ some 1)
jobctl-transcript_example =
    jobctl-transcript tools server ("logs" ∷ "-f" ∷ "7" ∷ []) ("-f" ∷ "7" ∷ []) "7" plain marshal
      over failed_run 0 1 2 sent none refl refl refl refl there refl refl keyed (omega arith, tt)
      (omega arith) (omega arith) body (ground arith) heard

abbrev flags : Flags
flags = record {
  name = "report";
  lines = pos 1;
  prefix = "";
  delay_ms = pos 0;
  fail_at = pos 0;
  fail_attempts = pos 0;
  cron = "";
  tz = "";
  max_retries = negsuc 0;
  timeout = pos 60;
}

abbrev created_job : NewJob
created_job = record {
  name = "report";
  type = "generate_text";
  payload = "{\"lines\":1}";
  cron_expr = none;
  timezone = "UTC";
  next_run_at = none;
  max_retries = 3;
  timeout_sec = 60;
}

abbrev one_line : List Field → String
one_line fs = "{\"lines\":1}"

decoded : plain.decode (one_line (payload_fields flags)) ≡ ok (payload_in (payload_fields flags))
unfolding payload_fields payload_in int_in text_in
decoded = refl

asked : create_request one_line flags ≡ ok (requested plain one_line flags)
unfolding create_request
asked = refl

accepted : new_job plain 100 (requested plain one_line flags) ≡ ok created_job
unfolding new_job validate_job parse_generate_text validate
accepted = refl

create_request-new_job_example :
    (created_job.name ≡ "report")
    × ((plain.decode created_job.payload ≡ ok (payload_of flags))
        × ((created_job.max_retries ≡ 3) × (created_job.timeout_sec ≡ 60)))
create_request-new_job_example =
    create_request-new_job plain one_line 100 flags (requested plain one_line flags) created_job
      decoded refl asked accepted
