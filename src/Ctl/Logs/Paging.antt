-- ===== src/Ctl/Logs/Paging.antt =====
-- jobctl's pages, fetched from the handler of internal/api/handlers.go, are the log.
use mathlib.Core.List.{map-append}
use jobsys.Base.{
  ℕ, zero, suc, ◌-◌, ◌^◌, ◌<◌, ◌≤◌, String, false, ◌≡◌, refl, ap, inl, inr, some, List, [], ◌∷◌,
  ◌++◌, map, length, take, ltb, All, if◌then◌else◌, Result, ok, decimal, decimal-filled, arith,
}
use jobsys.Base.Int.{ℤ, pos}
use jobsys.Base.Columns.{All-take, All-map}
use jobsys.Base.Paging.{key_after, key_after-take, at_least-All}
use jobsys.Store.Models.{LogRow, Run}
use jobsys.Store.Table.{find_run}
use jobsys.Store.Runs.{get_run}
use jobsys.Store.Logs.{list_logs, log_line}
use jobsys.Store.LogKeys.{IsKeyed}
use jobsys.Worker.Env.{World, fine}
use jobsys.Api.{Libraries, Response, LogsResponse, logs, query, query_int}
use jobsys.Api.Runs.{LogsQuery, handle_list_logs, next_seq}
use jobsys.Api.Reading.{
  seq_of, IsNumbered, from, list_logs-from, from-All, from-Ascending, page-cases, length-log_line,
  from-few, list_logs-all,
}
use jobsys.Ctl.Client.{do_request}
use jobsys.Ctl.Logs.{complete, page_query, print_log}

next_seq-log_line :
    (k : ℕ) (xs : List LogRow)
    → All IsNumbered xs
    → next_seq k (map log_line xs) ≡ pos (key_after seq_of k xs)
unfolding next_seq
next_seq-log_line k [] h = refl
next_seq-log_line k (x ∷ []) h = let h0 = h.0 in ground arith
next_seq-log_line k (x ∷ y ∷ xs) h = next_seq-log_line k (y ∷ xs) h.1

key_after-holds :
    (P : ℕ → Type 0) (k : ℕ) (xs : List LogRow)
    → All (λ a. P (suc a.seq)) xs
    → P k
    → P (key_after seq_of k xs)
key_after-holds P k [] h p = p
key_after-holds P k (x ∷ xs) h p = key_after-holds P (suc x.seq) xs h.1 h.0

-- strconv.Atoi reads back what `%d` prints of an int.
abbrev pub IsReadBack : Libraries → ℕ → Type 0
IsReadBack lib n = (n < 2 ^ 63) × (lib.atoi (decimal n) ≡ some (pos n))

print_log-page :
    (status_line : ℕ → String) (path : String) (answer : LogsQuery → Result String Response)
    (answers : List (LogsQuery → Result String Response)) (k : ℤ) (p : LogsResponse)
    → answer (page_query k) ≡ ok (record { status = 200; body = logs p })
    → let rest = print_log status_line path answers p.next_seq in
      print_log status_line path (answer ∷ answers) k
      ≡ (if ltb (length p.lines) 1000 then (p.lines, complete) else (p.lines ++ rest.0, rest.1))
unfolding print_log do_request
print_log-page status_line path answer answers k p e = cc

module _ (lib : Libraries) (thousand : IsReadBack lib 1000) (path : String) (w : World)
    (r : Run) where
  from_seq-read :
      (k : ℕ)
      → 1 ≤ k
      → IsReadBack lib k
      → query_int lib "from_seq" (decimal k) (pos 1) (pos 1) (pos (2 ^ 63 - 1)) ≡ ok (pos k)
  unfolding query_int
  from_seq-read k low (high, back) =
      let filled = decimal-filled k in
      let above : ltb k 1 ≡ false = ground arith in
      let below : ltb (2 ^ 63 - 1) k ≡ false = ground arith in rw (filled, back, above, below) refl

  limit-read : query_int lib "limit" "1000" (pos 500) (pos 1) (pos 1000) ≡ ok (pos 1000)
  unfolding query_int decimal
  limit-read = let back : lib.atoi "1000" ≡ some (pos 1000) = thousand.1 in rw back refl

  attempt-read :
      query_int lib "attempt" "" (pos r.attempt) (pos 1) (pos r.attempt) ≡ ok (pos r.attempt)
  unfolding query_int
  attempt-read = refl

  abbrev page_at : ℕ → LogsResponse
  page_at k = record {
    run_id = r.id;
    attempt = r.attempt;
    status = r.status;
    lines = list_logs r.id r.attempt k 1000 w.db;
    next_seq = next_seq k (list_logs r.id r.attempt k 1000 w.db);
  }

  abbrev pub serve : LogsQuery → Result String Response
  serve q = ok (handle_list_logs lib path q fine fine w).1

  -- A page of the handler's.
  page_answer :
      (k : ℕ)
      → lib.parse_uuid path ≡ some r.id
      → find_run r.id w.db ≡ some r
      → 1 ≤ k
      → IsReadBack lib k
      → (handle_list_logs lib path (page_query (pos k)) fine fine w).1
        ≡ record { status = 200; body = logs (page_at k) }
  unfolding handle_list_logs query get_run
  page_answer k parsed found low high =
      let start = from_seq-read k low high in
      let limited = limit-read in let current = attempt-read in cc

  module _ (parsed : lib.parse_uuid path ≡ some r.id) (found : find_run r.id w.db ≡ some r)
      (keyed : IsKeyed w.db.logs) (one : IsReadBack lib 1)
      (numbered : All (λ a. IsReadBack lib (suc a.seq)) w.db.logs) (status_line : ℕ → String) where
    -- The handler, once for each request.
    abbrev pub answers : ℕ → List (LogsQuery → Result String Response)
    answers zero = []
    answers (suc n) = serve ∷ answers n

    in_range : (a : LogRow) → IsReadBack lib (suc a.seq) → IsNumbered a
    in_range a h = let small = h.0 in omega arith

    small_rows : All IsNumbered w.db.logs
    small_rows = All-map _ _ in_range w.db.logs numbered

    abbrev rows : ℕ → List LogRow
    rows = from r.id r.attempt w.db

    print_log-rows :
        (n k : ℕ)
        → 1 ≤ k
        → IsReadBack lib k
        → length (rows k) < n
        → print_log status_line path (answers n) (pos k) ≡ (map log_line (rows k), complete)
    print_log-rows zero k low high h = absurd (omega arith)
    print_log-rows (suc n) k low high h =
        let page = take 1000 (rows k) in
        let k' = key_after seq_of k page in
        let P : LogRow → Type 0 = λ a. IsReadBack lib (suc a.seq) in
        let kept = All-take P 1000 (rows k) (from-All r.id r.attempt w.db P numbered k) in
        let small =
          All-take IsNumbered 1000 (rows k)
            (from-All r.id r.attempt w.db IsNumbered small_rows k) in
        let answer = page_answer k parsed found low high in
        let printed =
          print_log-page status_line path serve (answers n) (pos k) (page_at k) (ap ok answer) in
        let listed = list_logs-from r.id r.attempt w.db k 1000 in
        let next = next_seq-log_line k page small in
        let size = length-log_line page in
        elim (page-cases r.id r.attempt w.db keyed small_rows 1000 k) [
          | inl (t, all_of) ↦
              rw (printed, listed, size, t) (ap (λ s. (map log_line s, complete)) all_of)
          | inr (f, (split, left)) ↦
              let after =
                key_after-take seq_of 1000 k (rows k)
                  (from-Ascending r.id r.attempt w.db keyed small_rows k)
                  (at_least-All seq_of k _) in
              let rest =
                print_log-rows n k' (omega (arith, after, low))
                  (key_after-holds (IsReadBack lib) k page kept high) (omega (arith, left, h)) in
              let lines = map-append log_line page (rows k') in
              rw (printed, listed, size, f, next, rest, ← lines)
                (ap (λ s. (map log_line s, complete)) split)
        ]

    -- `jobctl logs` fetches page after page from the handler, each from where the last one ended,
    -- and ends: it prints exactly what one query without a limit answers for the run's current
    -- attempt. The database answers, its log table does not change meanwhile, keeps its primary key
    -- and numbers below 2^63 - 1; Atoi reads back the numbers that the client asks from.
    pub print_log-list_logs :
        (n : ℕ)
        → length w.db.logs < n
        → print_log status_line path (answers n) (pos 1)
          ≡ (list_logs r.id r.attempt 1 (length w.db.logs) w.db, complete)
    print_log-list_logs n enough =
        let few = from-few r.id r.attempt w.db 1 in
        let listed = list_logs-all r.id r.attempt w.db 1 (length w.db.logs) (omega arith) in
        rw listed (print_log-rows n 1 (omega arith) one (omega arith))
