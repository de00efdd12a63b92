-- ===== src/Ctl/Exit.antt =====
-- What `jobctl logs -f` does, from its arguments to the status of its process.
use jobsys.Base.{
  ℕ, ◌+◌, ◌<◌, ◌≡◌, refl, String, Option, some, true, List, [], ◌∷◌, map, length, All, ok,
}
use jobsys.Store.Models.{Run, Status, queued, running, succeeded, failed, cancelled}
use jobsys.Store.Table.{find_run}
use jobsys.Store.LogKeys.{IsKeyed}
use jobsys.Worker.Env.{World, fine}
use jobsys.Api.{Libraries}
use jobsys.Api.Stream.{attempt_begins, is_final, handle_stream_logs}
use jobsys.Api.Reading.{IsNumbered}
use jobsys.Api.Following.{polls, transcript}
use jobsys.Ctl.Status.{status_text}
use jobsys.Ctl.Wire.{Marshal, Piece, write_all}
use jobsys.Ctl.Events.{IsSendable}
use jobsys.Ctl.Follow.{Unmarshal, stream, follow_reply, ending_error}
use jobsys.Ctl.Transcripts.{ReadsBack, printed_of, ended, IsBodyOf, follow_run-transcript}
use jobsys.Ctl.Commands.{
  Tools, Answers, parsed, returned, followed, jobctl, command, logs_command, follow_command,
  exit_code,
}

abbrev pub code_of : Status → ℕ
code_of succeeded = 0
code_of _ = 1

ending_error-code :
    (json : Unmarshal) (r : Run) (s : Status)
    → r.status ≡ s
    → exit_code (returned (ending_error json (ended r))) ≡ some (code_of s)
unfolding status_text
ending_error-code json r queued e = rw e refl
ending_error-code json r running e = rw e refl
ending_error-code json r succeeded e = rw e refl
ending_error-code json r failed e = rw e refl
ending_error-code json r cancelled e = rw e refl

module _ (tools : Tools) (answers : Answers) (args rest : List String) (id : String) where
  followed-logs :
      tools.parse_args args ≡ parsed ("logs" ∷ rest)
      → tools.parse_follow rest ≡ parsed (true, id ∷ [])
      → jobctl tools answers args ≡ follow_command tools answers id
  unfolding jobctl command logs_command
  followed-logs called flagged = rw (jobctl, called, command, logs_command, flagged) refl

  -- `jobctl logs -f ID` for a run that is over prints every attempt's heading and log, each line once
  -- and in order, and the run's end, and exits with 0 if the run has succeeded, else with 1. The
  -- server streams from a log table that keeps its primary key and numbers below 2^63 - 1, and the
  -- client's JSON reads what the server's wrote, a line each; pings may come in between.
  pub jobctl-transcript :
      (lib : Libraries) (m : Marshal) (w : World) (r : Run) (later polled read : ℕ)
      (ps : List Piece) (reader : Option String)
      → tools.parse_args args ≡ parsed ("logs" ∷ rest)
      → tools.parse_follow rest ≡ parsed (true, id ∷ [])
      → answers.stream id ≡ ok (stream (write_all ps) reader)
      → lib.parse_uuid id ≡ some r.id
      → find_run r.id w.db ≡ some r
      → is_final r.status ≡ true
      → r.attempt ≡ 1 + later
      → IsKeyed w.db.logs
      → All IsNumbered w.db.logs
      → later < polled
      → length w.db.logs < read
      → IsBodyOf m ps (handle_stream_logs lib id "" "" fine (polls polled read w.db) w)
      → All (IsSendable tools.trim_space) ps
      → All (ReadsBack m tools.json) (attempt_begins 1 ∷ transcript w.db r later 1 1)
      → let out = jobctl tools answers args in
        (out.0 ≡ followed (map printed_of (attempt_begins 1 ∷ transcript w.db r later 1 1)) ∷ [])
        × (exit_code out.1 ≡ some (code_of r.status))
  unfolding follow_command follow_reply
  jobctl-transcript lib m w r later polled read ps reader called flagged streamed parsed_id found
        over last keyed numbered more enough body fit back =
      let told =
        follow_run-transcript lib m tools.json tools.trim_space id w r later polled read ps reader
          parsed_id found over last keyed numbered more enough body fit back in
      let whole = followed-logs called flagged in
      let code = ending_error-code tools.json r r.status refl in
      rw (whole, streamed, told) (refl, code)
