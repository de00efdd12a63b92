-- ===== src/System/Tests.antt =====
-- The system at concrete values.
use mathlib.Core.List.{Memᴰ}
use jobsys.Base.{◌≤◌, ◌≡◌, refl, ap, ◌∙◌, true, Option, none, some, [], ◌∷◌, ok, decimal}
use jobsys.Base.Int.{pos}
use jobsys.Queue.{Dispatch}
use jobsys.Store.Models.{Run, Db, new_run, manual, succeeded}
use jobsys.Store.Table.{find_run, find_job, update}
use jobsys.Store.Runs.{get_run, insert_run}
use jobsys.Store.Worker.{claimed, beaten, claim_run, heartbeat, write_owned}
use jobsys.Store.History.{beats, exec, exec_all}
use jobsys.Store.Histories.{IsValid}
use jobsys.Job.Payload.{GenerateText, parse_generate_text, validate}
use jobsys.Job.Results.{promised, numbered}
use jobsys.Worker.Env.{World, Notice, fine, dispatch}
use jobsys.Worker.Execute.{Env, execute, claim}
use jobsys.Worker.Tests.{worker_a, report, path, said}
use jobsys.Api.{Libraries}
use jobsys.Api.Tests.{plain, stored_world, no_broker}
use jobsys.Api.Server.{Calls, serve_request}
use jobsys.Api.Server as Server
use jobsys.Api.Server.Tests as Requests
use jobsys.Scheduler.{tick}
use jobsys.Scheduler.Tests.{moments, round}
use jobsys.Worker.Pool.{Pool, fetching, fetches, start}
use jobsys.System.Notices.{Reached, outset, later, serves, ticks, works, Reached-known}
use jobsys.System.EndToEnd.{taken, taken-db, run_quietly, triggered-succeeded}
use jobsys.System.Codec.{
  marshal, unmarshal, unmarshal-marshal, uuid, parse_uuid, parse_uuid-uuid, uuid-named,
}

abbrev rows : GenerateText
rows = record {
  lines = pos 2;
  prefix = "row";
  delay_ms = pos 0;
  fail_at = pos 0;
  fail_attempts = pos 0;
}

abbrev library : Libraries
library = record plain { parse_uuid = parse_uuid; decode = λ s. ok rows }

abbrev stored : World
stored = record { db = record { jobs = report ∷ []; runs = []; logs = [] }; topic = []; files = [] }

stored-IsValid : IsValid stored.db
stored-IsValid = record { keyed = tt; occurs_once = tt; rows_shaped = tt }

abbrev ending : Env
ending = record {
  loading = fine;
  ending = fine;
  dispatching = fine;
  ended_at = 30;
  meanwhile = beats 25 7 "a" 1 ∷ [];
  cause = none;
  disk = true;
}

-- The run as its heartbeat leaves it.
abbrev beating : Run
beating = beaten 25 (claimed 20 "a" (new_run 7 1 10 manual 10))

there : find_job 1 stored.db ≡ some report
unfolding find_job
there = refl

unknown : find_run 7 stored.db ≡ none
unfolding find_run
unknown = refl

payload_read : parse_generate_text library.decode report.payload ≡ ok rows
unfolding parse_generate_text validate
payload_read = refl

asked_text : promised rows 1 ≡ ok "row 1\nrow 2\n"
unfolding promised numbered decimal
asked_text = refl

abbrev worker_answer : World × Option Run
worker_answer =
    taken library worker_a marshal unmarshal uuid parse_uuid unmarshal-marshal uuid-named
      parse_uuid-uuid (uuid 1) stored 1 report 7 10 11 20 stored-IsValid (parse_uuid-uuid 1) there
      unknown refl

abbrev held_db : Db
held_db = (claim_run 20 7 "a" (insert_run (new_run 7 1 10 manual 10) stored.db)).0

answer-held : worker_answer.0.db ≡ held_db
answer-held =
    taken-db library worker_a marshal unmarshal uuid parse_uuid unmarshal-marshal uuid-named
      parse_uuid-uuid (uuid 1) stored 1 report 7 10 11 20 stored-IsValid (parse_uuid-uuid 1) there
      unknown refl

still_there : find_run 7 (exec_all ending.meanwhile held_db) ≡ some beating
unfolding find_run exec_all exec heartbeat write_owned claim_run insert_run update
still_there = refl

job_there : find_job 1 (exec_all ending.meanwhile held_db) ≡ some report
unfolding find_job exec_all exec heartbeat write_owned claim_run insert_run update
job_there = refl

triggered-succeeded_example :
    (worker_answer.1 ≡ some (claimed 20 "a" (new_run 7 1 10 manual 10)))
    × ((s : Run) × (get_run 7
            (execute worker_a path said ending
              (claimed 20 "a" (new_run 7 1 10 manual 10))
              (run_quietly library)
              worker_answer.0).db
          ≡ ok s)
        × (s.status ≡ succeeded)
        × (s.output ≡ some "row 1\nrow 2\n"))
triggered-succeeded_example =
    triggered-succeeded library worker_a marshal unmarshal uuid parse_uuid unmarshal-marshal
      uuid-named parse_uuid-uuid (uuid 1) stored 1 report 7 10 11 20 stored-IsValid
      (parse_uuid-uuid 1) there unknown refl rows "row 1\nrow 2\n" path said ending beating report
      refl payload_read asked_text refl refl
      (ap (λ db. find_run 7 (exec_all ending.meanwhile db)) answer-held ∙ still_there)
      (ap (λ db. find_job 1 (exec_all ending.meanwhile db)) answer-held ∙ job_there) refl

abbrev first_notice : Notice
first_notice = record { run_id = 7; job_id = 1; job_type = "generate_text"; attempt = 1 }

-- A request to run a job, a tick of the scheduler and a worker that reads a message.
abbrev broker_calls : Calls
broker_calls = record Requests.some_calls { run_calls = record no_broker { dispatching = fine } }

abbrev after_request : World
after_request =
    (serve_request plain Requests.decoded Requests.trigger_it broker_calls stored_world).0

abbrev after_tick : World
after_tick = (tick (λ s. s) moments (round ∷ []) after_request).0

abbrev reading_pool : Pool
reading_pool = record (start after_tick) { stage = fetching; slots = 1 }

abbrev sent_one : Dispatch
sent_one = record { run_id = uuid 7; job_id = uuid 1; job_type = "generate_text"; attempt = 1 }

abbrev after_claim : World
after_claim = (claim worker_a unmarshal parse_uuid fine 300 (marshal sent_one) after_tick).0

three_turns :
    Reached plain Requests.decoded
      (λ s. s)
      moments
      path
      said
      unmarshal
      parse_uuid
      stored_world
      after_claim
three_turns =
    later (later (later outset (serves Requests.trigger_it broker_calls)) (ticks (round ∷ [])))
      (works worker_a reading_pool _ (fetches fine 300 (marshal sent_one) refl) refl)

Reached-known_example :
    IsValid after_claim.db
    × ((n : Notice)
        → Memᴰ n after_claim.topic
        → (r : Run) × (find_run n.run_id after_claim.db ≡ some r) × (n.attempt ≤ r.attempt))
Reached-known_example =
    Reached-known plain Requests.decoded (λ s. s) moments path said unmarshal parse_uuid
      stored_world after_claim three_turns Requests.stored-IsValid refl

-- The request has announced the run that it made.
request-announces : after_request.topic ≡ first_notice ∷ []
unfolding Server.serve_request Server.route Server.post_route Server.handle_route
    jobsys.Api.Runs.handle_run_job jobsys.Api.Runs.dispatch_run jobsys.Api.query dispatch
    jobsys.Store.Jobs.get_job jobsys.Store.Runs.create_manual_run insert_run find_job
    jobsys.Store.Jobs.created
request-announces = refl
