-- ===== src/Store/Logs.antt =====
-- The log table: AppendLogs of internal/store/worker.go and ListLogs of internal/store/runs.go.
use jobsys.Base.{
  ℕ, String, Bool, true, false, List, [], ◌∷◌, ◌++◌, map, ◌==◌, ◌&&◌, ◌||◌, leb, select, take,
  sort_by, if◌then◌else◌, text_eq, Result, ok, err,
}
use jobsys.Store.Models.{LogLine, LogRow, Db, StoreError, check_violation, foreign_key_violation}
use jobsys.Store.Runs.{has_run}

-- CHECK (level IN ('debug', 'info', 'warn', 'error')).
unfoldable pub is_level : String → Bool
is_level s = text_eq s "debug" || (text_eq s "info" || (text_eq s "warn" || text_eq s "error"))

unfoldable pub are_levels : List LogLine → Bool
are_levels [] = true
are_levels (l ∷ ls) = is_level l.level && are_levels ls

-- The primary key (run_id, attempt, seq).
abbrev pub same_key : LogRow → LogRow → Bool
same_key a b = a.run_id == b.run_id && (a.attempt == b.attempt && a.seq == b.seq)

unfoldable pub has_key : LogRow → List LogRow → Bool
has_key a [] = false
has_key a (x ∷ xs) = same_key x a || has_key a xs

-- ON CONFLICT DO NOTHING.
unfoldable pub insert_log : LogRow → List LogRow → List LogRow
insert_log a rows = if has_key a rows then rows else rows ++ a ∷ []

abbrev pub log_row : ℕ → ℕ → LogLine → LogRow
log_row run_id attempt l = record {
  run_id = run_id;
  attempt = attempt;
  seq = l.seq;
  ts = l.ts;
  level = l.level;
  line = l.line;
}

unfoldable pub insert_logs : ℕ → ℕ → List LogLine → List LogRow → List LogRow
insert_logs run_id attempt [] rows = rows
insert_logs run_id attempt (l ∷ ls) rows =
    insert_logs run_id attempt ls (insert_log (log_row run_id attempt l) rows)

-- The CHECK is tested for each row, the reference to job_runs at the end of the statement.
unfoldable pub append_logs : ℕ → ℕ → List LogLine → Db → Result StoreError Db
append_logs run_id attempt [] db = ok db
append_logs run_id attempt (l ∷ ls) db =
    if are_levels (l ∷ ls)
    then (if has_run run_id db
        then ok (record db { logs = insert_logs run_id attempt (l ∷ ls) db.logs })
        else err foreign_key_violation)
    else err check_violation

abbrev pub log_line : LogRow → LogLine
log_line a = record { attempt = a.attempt; seq = a.seq; ts = a.ts; level = a.level; line = a.line }

abbrev pub is_log_of : ℕ → ℕ → ℕ → LogRow → Bool
is_log_of run_id attempt from_seq a =
    a.run_id == run_id && (a.attempt == attempt && leb from_seq a.seq)

unfoldable pub list_logs : ℕ → ℕ → ℕ → ℕ → Db → List LogLine
list_logs run_id attempt from_seq limit db =
    map log_line
      (take limit (sort_by (λ a. a.seq) (select (is_log_of run_id attempt from_seq) db.logs)))
