-- ===== src/Api/Reading.antt =====
-- The batches of internal/api/stream.go, put together, are the log.
use mathlib.Core.List.{map-append}
use jobsys.Base.{
  ℕ, zero, suc, ◌+◌, ◌^◌, ◌≤◌, ◌<◌, ◌≡◌, refl, sym, ap, ◌∙◌, true, false, some, List, [], ◌∷◌, ◌++◌,
  map, length, ltb, leb, take, select, sort_by, All, Result, ok, arith, Bool-cases, ◌⊎◌, inl, inr,
  length-append,
}
use jobsys.Base.Int.{pos_part}
use jobsys.Base.Columns.{All-select, All-sort_with, All-take}
use jobsys.Base.Sorting.{take-all, length-sort_with}
use jobsys.Base.Paging.{
  at_least, Ascending, key_after, select-sort_by, sort_by-Ascending, Ascending-select,
  select-select, take-select, key_after-take, key_after-append, at_least-All, take-short,
  length-select,
}
use jobsys.Store.Models.{LogRow, Db, StoreError}
use jobsys.Store.LogKeys.{IsKeyed, IsKeyed-Distinct}
use jobsys.Store.Logs.{list_logs, log_line, is_log_of}
use jobsys.Api.Runs.{next64}
use jobsys.Api.Stream.{stream_batch, line_after, read_lines}

abbrev pub seq_of : LogRow → ℕ
seq_of a = a.seq

-- Numbers that the int64 of a line's successor holds.
abbrev pub IsNumbered : LogRow → Type 0
IsNumbered a = a.seq + 1 < 2 ^ 63

line_after-log_line :
    (k : ℕ) (xs : List LogRow)
    → All IsNumbered xs
    → line_after k (map log_line xs) ≡ key_after seq_of k xs
unfolding line_after
line_after-log_line k [] h = refl
line_after-log_line k (x ∷ xs) h =
    let h0 = h.0 in
    let here : pos_part (next64 x.seq) ≡ suc x.seq = ground arith in
    ap (λ m. line_after m (map log_line xs)) here ∙ line_after-log_line (suc x.seq) xs h.1

pub length-log_line : (xs : List LogRow) → length (map log_line xs) ≡ length xs
length-log_line [] = refl
length-log_line (x ∷ xs) = ap suc (length-log_line xs)

ltb-less : (a b : ℕ) → ltb a b ≡ true → a < b
ltb-less a b t = ground arith

ltb-more : (a b : ℕ) → ltb a b ≡ false → b ≤ a
ltb-more a b f = ground arith

-- The same read, a number of times.
abbrev pub reads : ℕ → Db → List (Result StoreError Db)
reads zero db = []
reads (suc n) db = ok db ∷ reads n db

select-log :
    (id attempt k : ℕ) (rows : List LogRow)
    → select (at_least seq_of k) (select (is_log_of id attempt 0) rows)
      ≡ select (is_log_of id attempt k) rows
select-log id attempt k [] = refl
select-log id attempt k (a ∷ rows) = let rest = select-log id attempt k rows in ground arith

module _ (id attempt : ℕ) (db : Db) where
  abbrev pub whole : List LogRow
  whole = sort_by seq_of (select (is_log_of id attempt 0) db.logs)

  abbrev pub from : ℕ → List LogRow
  from k = select (at_least seq_of k) whole

  sorted-from : (k : ℕ) → sort_by seq_of (select (is_log_of id attempt k) db.logs) ≡ from k
  sorted-from k = sym (
      select-sort_by seq_of k (select (is_log_of id attempt 0) db.logs)
      ∙ ap (sort_by seq_of) (select-log id attempt k db.logs))

  pub list_logs-from :
      (k limit : ℕ) → list_logs id attempt k limit db ≡ map log_line (take limit (from k))
  unfolding list_logs
  list_logs-from k limit = ap (λ s. map log_line (take limit s)) (sorted-from k)

  pub from-few : (k : ℕ) → length (from k) ≤ length db.logs
  from-few k =
      let chosen = select (is_log_of id attempt 0) db.logs in
      let few = length-select (is_log_of id attempt 0) db.logs in
      let fewer = length-select (at_least seq_of k) whole in
      let same = length-sort_with (λ a b. leb a.seq b.seq) chosen in omega arith

  -- A limit with room for the whole table leaves nothing out.
  pub list_logs-all :
      (k limit : ℕ)
      → length db.logs ≤ limit
      → list_logs id attempt k limit db ≡ map log_line (from k)
  list_logs-all k limit room =
      let few = from-few k in
      list_logs-from k limit ∙ ap (map log_line) (take-all limit (from k) (omega arith))

  pub from-All : (P : LogRow → Type 0) → All P db.logs → (k : ℕ) → All P (from k)
  from-All P h k =
      All-select P (at_least seq_of k) whole
        (All-sort_with P _ _ (All-select P (is_log_of id attempt 0) db.logs h))

  module _ (keyed : IsKeyed db.logs) (numbered : All IsNumbered db.logs) where
    pub from-Ascending : (k : ℕ) → Ascending seq_of (from k)
    from-Ascending k =
        Ascending-select seq_of (at_least seq_of k) whole
          (sort_by-Ascending seq_of _ (IsKeyed-Distinct id attempt 0 db.logs keyed))

    pub from-IsNumbered : (k : ℕ) → All IsNumbered (from k)
    from-IsNumbered = from-All IsNumbered numbered

    -- A page is short, and then the rest of the log, or is full, and what follows its last line is
    -- what it leaves of that rest.
    pub page-cases :
        (size k : ℕ)
        → let page = take size (from k) in
          let next = from (key_after seq_of k page) in
          ((ltb (length page) size ≡ true) × (page ≡ from k))
          ⊎ ((ltb (length page) size ≡ false)
              × ((page ++ next ≡ from k) × (length next + size ≤ length (from k))))
    page-cases size k =
        let page = take size (from k) in
        let low = at_least-All seq_of k whole in
        let up = key_after-take seq_of size k (from k) (from-Ascending k) low in
        let split =
          ap (λ s. page ++ s) (sym (select-select seq_of k (key_after seq_of k page) whole up))
          ∙ take-select seq_of size k (from k) (from-Ascending k) low in
        elim (Bool-cases (ltb (length page) size)) [
          | inl t ↦ inl (t, take-short size (from k) (ltb-less _ _ t))
          | inr f ↦
              let sum = length-append page (from (key_after seq_of k page)) in
              let whole_length = ap length split in
              let full = ltb-more _ _ f in inr (f, (split, omega (arith, sum, whole_length, full)))
        ]

    read_lines-from :
        (n k : ℕ)
        → length (from k) < n
        → read_lines (reads n db) id attempt k
          ≡ (map log_line (from k), some (key_after seq_of k (from k)))
    unfolding read_lines
    read_lines-from zero k h = absurd (omega arith)
    read_lines-from (suc n) k h =
        let page = take stream_batch (from k) in
        let k' = key_after seq_of k page in
        let listed = list_logs-from k stream_batch in
        let after =
          line_after-log_line k page
            (All-take IsNumbered stream_batch (from k) (from-IsNumbered k)) in
        let size = length-log_line page in
        elim (page-cases stream_batch k) [
          | inl (t, all_of) ↦
              rw (listed, size, t, after)
                (ap (λ s. (map log_line s, some (key_after seq_of k s))) all_of)
          | inr (f, (split, left)) ↦
              let rest = read_lines-from n k' (omega (arith, left, h)) in
              let lines = map-append log_line page (from k') in
              let key = key_after-append seq_of k page (from k') in
              rw (listed, size, f, after, rest, ← lines, ← key)
                (ap (λ s. (map log_line s, some (key_after seq_of k s))) split)
        ]

    -- Reading in batches is reading at once: for a log table that keeps its primary key and numbers
    -- below 2^63 - 1, and that does not change meanwhile, the inner loop of the stream ends, and sends
    -- exactly the lines that one query without a limit answers, from any line number on.
    pub read_lines-list_logs :
        (n k limit : ℕ)
        → length db.logs < n
        → length db.logs ≤ limit
        → read_lines (reads n db) id attempt k
          ≡ (list_logs id attempt k limit db, some (line_after k (list_logs id attempt k limit db)))
    read_lines-list_logs n k limit enough room =
        let few = from-few k in
        let listed = list_logs-all k limit room in
        let after = line_after-log_line k (from k) (from-IsNumbered k) in
        rw (listed, after) (read_lines-from n k (omega arith))
