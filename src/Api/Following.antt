-- ===== src/Api/Following.antt =====
-- What a client of internal/api/stream.go is told of a run that is over.
use jobsys.Base.{
  ℕ, zero, suc, ◌+◌, ◌<◌, ◌≡◌, true, false, some, List, [], ◌∷◌, ◌++◌, map, length, ltb, All, ok,
  arith,
}
use jobsys.Store.Models.{Run, Db}
use jobsys.Store.Table.{find_run}
use jobsys.Store.Runs.{get_run}
use jobsys.Store.Logs.{list_logs}
use jobsys.Store.LogKeys.{IsKeyed}
use jobsys.Api.Stream.{Poll, StreamEvent, attempt_begins, a_line, run_ends, is_final, follow}
use jobsys.Api.Reading.{IsNumbered, reads, read_lines-list_logs}

-- The same poll, a number of times.
abbrev pub polls : ℕ → ℕ → Db → List Poll
polls zero n db = []
polls (suc m) n db = record { run_read = ok db; log_reads = reads n db } ∷ polls m n db

module _ (db : Db) (r : Run) where
  -- Every attempt from this one on, with its log, then the run's end.
  unfoldable pub transcript : ℕ → ℕ → ℕ → List StreamEvent
  transcript zero attempt from =
      map a_line (list_logs r.id attempt from (length db.logs) db)
      ++ run_ends r.status r.attempt r.error ∷ []
  transcript (suc later) attempt from =
      map a_line (list_logs r.id attempt from (length db.logs) db)
      ++ attempt_begins (attempt + 1) ∷ transcript later (attempt + 1) 1

  -- Following a finished run, from one of its attempts on, tells that attempt's log and those of all
  -- later attempts, each line once and in order, then how the run ended, and closes, for a log table
  -- that keeps its primary key and numbers below 2^63 - 1.
  pub follow-transcript :
      (later attempt from m n : ℕ)
      → find_run r.id db ≡ some r
      → is_final r.status ≡ true
      → r.attempt ≡ attempt + later
      → IsKeyed db.logs
      → All IsNumbered db.logs
      → later < m
      → length db.logs < n
      → follow (polls m n db) r.id attempt from ≡ transcript later attempt from
  unfolding follow transcript get_run
  follow-transcript later attempt from zero n found over last keyed numbered more enough =
      absurd (omega arith)
  follow-transcript zero attempt from (suc m) n found over last keyed numbered more enough =
      let read =
        read_lines-list_logs r.id attempt db keyed numbered n from (length db.logs) enough
          (omega arith) in
      let done : ltb attempt r.attempt ≡ false = ground arith in cc
  follow-transcript (suc later) attempt from (suc m) n found over last keyed numbered more enough =
      let read =
        read_lines-list_logs r.id attempt db keyed numbered n from (length db.logs) enough
          (omega arith) in
      let onward : ltb attempt r.attempt ≡ true = ground arith in
      let rest =
        follow-transcript later (attempt + 1) 1 m n found over (omega arith) keyed numbered
          (omega arith) enough in
      cc
