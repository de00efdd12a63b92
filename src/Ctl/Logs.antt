-- ===== src/Ctl/Logs.antt =====
-- logs of cmd/jobctl/main.go without -f: the current attempt's log, page by page. What answers each
-- request is a list, which ends where the client is stopped.
use jobsys.Base.{
  ℕ, String, Bool, true, false, List, [], ◌∷◌, ◌++◌, length, ltb, ◌<>◌, if◌then◌else◌, Result, ok,
  err,
}
use jobsys.Base.Int.{ℤ, pos}
use jobsys.Store.Models.{LogLine}
use jobsys.Api.{Response}
use jobsys.Api.Runs.{LogsQuery}
use jobsys.Ctl.Client.{do_request, decimalℤ, page_of}
pub mod Paging

pub data Ending : Type 0 where
  interrupted : Ending
  complete : Ending
  failed : String → Ending

abbrev pub page_query : ℤ → LogsQuery
page_query from = record { attempt = ""; from_seq = decimalℤ from; limit = "1000" }

module _ (status_line : ℕ → String) (run_id : String) where
  abbrev pub request : String
  request = "GET /runs/" <> (run_id <> "/logs")

  unfoldable pub print_log : List (LogsQuery → Result String Response) → ℤ → List LogLine × Ending
  print_log [] from = ([], interrupted)
  print_log (answer ∷ answers) from =
      elim (do_request status_line request (answer (page_query from))) [
        | err e ↦ ([], failed e)
        | ok body ↦
            let (lines, next) = page_of body in
            let (more, outcome) = print_log answers next in
            if ltb (length lines) 1000 then (lines, complete) else (lines ++ more, outcome)
      ]
