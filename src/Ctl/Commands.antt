-- ===== src/Ctl/Commands.antt =====
-- main of cmd/jobctl/main.go and its commands, on what the server answers to each request. The flag
-- package, which may exit by itself, is a parameter.
use jobsys.Base.{
  ℕ, String, Bool, true, false, Option, none, some, List, [], ◌∷◌, Result, ok, err, text_eq,
  if◌then◌else◌,
}
use jobsys.Base.Int.{pos}
use jobsys.Store.Models.{LogLine}
use jobsys.Api.{Response}
use jobsys.Api.Jobs.{CreateJobRequest}
use jobsys.Api.Runs.{LogsQuery}
use jobsys.Ctl.Bytes.{Bytes}
use jobsys.Ctl.Create.{Flags, Field, create_request}
use jobsys.Ctl.Follow.{Unmarshal, Reply, Printed, follow_reply}
use jobsys.Ctl.Logs.{Ending, interrupted, complete, failed, print_log}
use jobsys.Ctl.Show.{show_jobs, show_created, run_job, show_status}

-- What a command prints: tables, an id, when a schedule starts, a log.
pub data Output : Type 0 where
  job_rows : List (List String) → Output
  run_rows : List (String × String) → Output
  new_id : String → Output
  first_run : Option String → Output
  log_lines : List LogLine → Output
  followed : List Printed → Output

-- A command returns, the process exits inside it, or it has not ended.
pub data Finish : Type 0 where
  returned : Option String → Finish
  exited : ℕ → Finish
  unfinished : Finish

-- Parsing flags, with flag.ExitOnError.
pub data Parsed (A : Type 0) : Type 0 where
  parsed : A → Parsed A
  exits : ℕ → Parsed A

-- What the server answers: a request without a body by its id.
pub record Answers : Type 0 where
  pub jobs : Result String Response
  pub create : CreateJobRequest → Result String Response
  pub run_job : String → Result String Response
  pub status : String → Result String Response
  pub pages : String → List (LogsQuery → Result String Response)
  pub stream : String → Result String Reply

pub record Tools : Type 0 where
  -- flag: the arguments behind -api, the flags of create, and -f with the arguments behind it.
  pub parse_args : List String → Parsed (List String)
  pub parse_create : List String → Parsed Flags
  pub parse_follow : List String → Parsed (Bool × List String)
  -- Texts of a status code, a time, an id, %q, and the number of line breaks in a text.
  pub status_line : ℕ → String
  pub date_time : ℕ → String
  pub uuid : ℕ → String
  pub quote : String → String
  pub line_breaks : String → ℕ
  pub marshal : List Field → String
  pub json : Unmarshal
  pub trim_space : Bytes → Bytes

abbrev pub Done : Type 0
Done = List Output × Finish

-- A command that fails prints nothing.
abbrev pub shown_or_error : {A : Type 0} → (A → List Output) → Result String A → Done
shown_or_error shown (err e) = ([], returned (some e))
shown_or_error shown (ok a) = (shown a, returned none)

abbrev pub one_argument : String → (String → Done) → List String → Done
one_argument usage command (a ∷ []) = command a
one_argument usage command _ = ([], returned (some usage))

abbrev pub paged : List LogLine × Ending → Done
paged (lines, interrupted) = (log_lines lines ∷ [], unfinished)
paged (lines, complete) = (log_lines lines ∷ [], returned none)
paged (lines, failed e) = (log_lines lines ∷ [], returned (some e))

module _ (tools : Tools) (answers : Answers) where
  unfoldable pub jobs_command : Done
  jobs_command =
      shown_or_error (λ rows. job_rows rows ∷ [])
        (show_jobs tools.date_time tools.uuid tools.status_line answers.jobs)

  unfoldable pub create_command : List String → Done
  create_command args = elim (tools.parse_create args) [
    | exits n ↦ ([], exited n)
    | parsed flags ↦ elim (create_request tools.marshal flags) [
      | err e ↦ ([], returned (some e))
      | ok request ↦
          shown_or_error (λ lines. new_id lines.0 ∷ first_run lines.1 ∷ [])
            (show_created tools.date_time tools.uuid tools.status_line tools.quote
              (answers.create request))
    ]
  ]

  unfoldable pub follow_command : String → Done
  follow_command id =
      let (lines, e) =
        follow_reply tools.json tools.status_line id tools.trim_space (answers.stream id) in
      (followed lines ∷ [], returned e)

  abbrev pub then_followed : Result String (String × Bool) → Done
  then_followed (err e) = ([], returned (some e))
  then_followed (ok (id, false)) = (new_id id ∷ [], returned none)
  then_followed (ok (id, true)) = let (lines, end) = follow_command id in (new_id id ∷ lines, end)

  unfoldable pub run_command : List String → Done
  run_command args = elim (tools.parse_follow args) [
    | exits n ↦ ([], exited n)
    | parsed given ↦
        one_argument "usage: jobctl run [-f] <job-id>"
          (λ job_id. then_followed (
            run_job tools.date_time tools.uuid tools.status_line job_id given.0
              (answers.run_job job_id)))
          given.1
  ]

  unfoldable pub status_command : List String → Done
  status_command args =
      one_argument "usage: jobctl status <run-id>"
        (λ run_id.
          shown_or_error (λ rows. run_rows rows ∷ [])
            (show_status tools.date_time tools.uuid tools.line_breaks tools.status_line run_id
              (answers.status run_id)))
        args

  unfoldable pub logs_command : List String → Done
  logs_command args = elim (tools.parse_follow args) [
    | exits n ↦ ([], exited n)
    | parsed given ↦
        one_argument "usage: jobctl logs [-f] <run-id>"
          (λ run_id.
            if given.0
            then follow_command run_id
            else paged (print_log tools.status_line run_id (answers.pages run_id) (pos 1)))
          given.1
  ]

  -- The switch of main.
  unfoldable pub command : String → List String → Done
  command name args =
      if text_eq name "jobs"
      then jobs_command
      else if text_eq name "create"
      then create_command args
      else if text_eq name "run"
      then run_command args
      else if text_eq name "status"
      then status_command args
      else if text_eq name "logs"
      then logs_command args
      else ([], exited 2)

  abbrev pub commanded : List String → Done
  commanded [] = ([], exited 2)
  commanded (name ∷ args) = command name args

  unfoldable pub jobctl : List String → Done
  jobctl args = elim (tools.parse_args args) [
    | exits n ↦ ([], exited n)
    | parsed rest ↦ commanded rest
  ]

-- The status of the process, once it has ended.
abbrev pub exit_code : Finish → Option ℕ
exit_code (returned none) = some 0
exit_code (returned (some e)) = some 1
exit_code (exited n) = some n
exit_code unfinished = none
