-- ===== src/Ctl/Follow.antt =====
-- follow of cmd/jobctl/main.go: `jobctl logs -f` and `jobctl run -f` print a run's log as it is
-- streamed, and fail if the run did. encoding/json is a parameter, in both directions.
use jobsys.Base.{
  ℕ, String, Bool, true, false, ◌==◌, ◌&&◌, Option, none, some, List, [], ◌∷◌, ◌++◌, if◌then◌else◌,
  ◌<>◌, text_eq, Result, ok, err,
}
use jobsys.Store.Models.{LogLine}
use jobsys.Api.{Response}
use jobsys.Ctl.Client.{api_error}
use jobsys.Ctl.Bytes.{Bytes, codes}
use jobsys.Ctl.Events.{Stop, stopped, too_long, unreadable, read_events}

-- The event that ends a stream, as the client reads it.
pub record End : Type 0 where
  pub status : String
  pub attempt : ℕ
  pub error : Option String

abbrev pub no_end : End
no_end = record { status = ""; attempt = 0; error = none }

-- What is printed: the heading of an attempt, printLine, and the last line.
pub data Printed : Type 0 where
  attempt_heading : ℕ → Printed
  printed_line : LogLine → Printed
  run_footer : String → ℕ → Printed

-- What the callback changes.
pub record Screen : Type 0 where
  pub printed : List Printed
  pub end : End

-- errStreamEnd, or an error of json.Unmarshal.
pub data Interrupt : Type 0 where
  stream_end : Interrupt
  malformed : String → Interrupt

-- json.Unmarshal into the three values of follow. Its error is not looked at for an attempt.
pub record Unmarshal : Type 0 where
  pub attempt : Bytes → ℕ
  pub line : Bytes → Result String LogLine
  pub end : Bytes → Result String End

-- Equality of the names of events.
abbrev pub equal : Bytes → Bytes → Bool
equal [] [] = true
equal (x ∷ xs) (y ∷ ys) = x == y && equal xs ys
equal _ _ = false

abbrev pub show : Printed → Screen → Screen
show p s = record s { printed = s.printed ++ p ∷ [] }

-- What http.Get answers: a refusal, or a body.
pub data Reply : Type 0 where
  refusal : Response → Reply
  stream : Bytes → Option String → Reply

module _ (json : Unmarshal) where
  unfoldable pub on_event : Screen → Bytes → Bytes → Screen × Option Interrupt
  on_event s event text =
      if equal event (codes "attempt")
      then (show (attempt_heading (json.attempt text)) s, none)
      else if equal event (codes "line")
      then elim (json.line text) [
        | err e ↦ (s, some (malformed e))
        | ok l ↦ (show (printed_line l) s, none)
      ]
      else if equal event (codes "end")
      then elim (json.end text) [
        | err e ↦ (s, some (malformed e))
        | ok end ↦ (record s { end = end }, some stream_end)
      ]
      else (s, none)

  abbrev pub ending_error : End → Option String
  ending_error end =
      if text_eq end.status "SUCCEEDED"
      then none
      else some (elim end.error [
        | none ↦ "run " <> end.status
        | some e ↦ "run " <> (end.status <> ": " <> e)
      ])

  -- What is printed in the end, and the error of the command.
  unfoldable pub conclude : Screen × Option (Stop Interrupt) → List Printed × Option String
  conclude (s, none) = (s.printed, some "stream closed before the run finished")
  conclude (s, some too_long) = (s.printed, some "bufio.Scanner: token too long")
  conclude (s, some (unreadable e)) = (s.printed, some e)
  conclude (s, some (stopped (malformed e))) = (s.printed, some e)
  conclude (s, some (stopped stream_end)) =
      (s.printed ++ run_footer s.end.status s.end.attempt ∷ [], ending_error s.end)

  -- The body of the answer, up to where the connection ends and how.
  unfoldable pub follow_run : (Bytes → Bytes) → Bytes → Option String → List Printed × Option String
  follow_run trim_space body reader =
      conclude (read_events trim_space on_event body reader (record { printed = []; end = no_end }))

  unfoldable pub follow_reply :
      (ℕ → String) → String → (Bytes → Bytes) → Result String Reply → List Printed × Option String
  follow_reply status_line run_id trim_space (err e) = ([], some e)
  follow_reply status_line run_id trim_space (ok (refusal r)) =
      ([], some (api_error status_line ("GET /runs/" <> (run_id <> "/logs/stream")) r))
  follow_reply status_line run_id trim_space (ok (stream body reader)) =
      follow_run trim_space body reader
