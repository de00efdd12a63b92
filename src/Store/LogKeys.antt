-- ===== src/Store/LogKeys.antt =====
-- The log table under AppendLogs: its primary key, and batches that are sent again.
use jobsys.Base.{
  ℕ, ◌≡◌, refl, true, false, ◌||◌, List, [], ◌∷◌, ◌++◌, map, select, ◌==◌, ok, arith, Bool-cases,
  inl, inr,
}
use jobsys.Base.Unique.{contains, Distinct}
use jobsys.Store.Models.{LogLine, LogRow, Db}
use jobsys.Store.Runs.{has_run}
use jobsys.Store.Logs.{
  same_key, has_key, insert_log, insert_logs, log_row, append_logs, is_log_of, are_levels,
}

-- No two rows have the same run, attempt and number.
abbrev pub IsKeyed : List LogRow → Type 0
IsKeyed [] = Unit
IsKeyed (x ∷ xs) = (has_key x xs ≡ false) × IsKeyed xs

has_key-append :
    (a b : LogRow) (xs : List LogRow) → has_key a (xs ++ b ∷ []) ≡ has_key a xs || same_key b a
unfolding has_key
has_key-append a b [] = ground arith
has_key-append a b (x ∷ xs) = let rest = has_key-append a b xs in ground arith

same_key-sym : (a b : LogRow) → same_key a b ≡ same_key b a
same_key-sym a b = ground arith

append-IsKeyed :
    (a : LogRow) (xs : List LogRow) → has_key a xs ≡ false → IsKeyed xs → IsKeyed (xs ++ a ∷ [])
unfolding has_key
append-IsKeyed a [] f h = (refl, tt)
append-IsKeyed a (x ∷ xs) f h =
    let h0 = h.0 in
    let grown = has_key-append x a xs in
    let turn = same_key-sym a x in (ground arith, append-IsKeyed a xs (ground arith) h.1)

insert_log-IsKeyed : (a : LogRow) (xs : List LogRow) → IsKeyed xs → IsKeyed (insert_log a xs)
unfolding insert_log
insert_log-IsKeyed a xs h = elim (Bool-cases (has_key a xs)) [
  | inl t ↦ rw t h
  | inr f ↦ rw f (append-IsKeyed a xs f h)
]

module _ (run_id attempt : ℕ) where
  insert_logs-IsKeyed :
      (ls : List LogLine) (xs : List LogRow)
      → IsKeyed xs
      → IsKeyed (insert_logs run_id attempt ls xs)
  unfolding insert_logs
  insert_logs-IsKeyed [] xs h = h
  insert_logs-IsKeyed (l ∷ ls) xs h =
      insert_logs-IsKeyed ls (insert_log (log_row run_id attempt l) xs)
        (insert_log-IsKeyed (log_row run_id attempt l) xs h)

  insert_log-keeps :
      (a b : LogRow) (xs : List LogRow) → has_key a xs ≡ true → has_key a (insert_log b xs) ≡ true
  unfolding insert_log
  insert_log-keeps a b xs h = elim (Bool-cases (has_key b xs)) [
    | inl t ↦ rw t h
    | inr f ↦ rw (f, has_key-append a b xs, h) refl
  ]

  insert_log-has_key : (a : LogRow) (xs : List LogRow) → has_key a (insert_log a xs) ≡ true
  unfolding insert_log
  insert_log-has_key a xs = elim (Bool-cases (has_key a xs)) [
    | inl t ↦ rw t t
    | inr f ↦
        let self : same_key a a ≡ true = ground arith in rw (f, has_key-append a a xs, f, self) refl
  ]

  insert_logs-keeps :
      (a : LogRow) (ls : List LogLine) (xs : List LogRow)
      → has_key a xs ≡ true
      → has_key a (insert_logs run_id attempt ls xs) ≡ true
  unfolding insert_logs
  insert_logs-keeps a [] xs h = h
  insert_logs-keeps a (l ∷ ls) xs h =
      insert_logs-keeps a ls (insert_log (log_row run_id attempt l) xs)
        (insert_log-keeps a (log_row run_id attempt l) xs h)

  -- All of a batch is there.
  abbrev Holds : List LogRow → List LogLine → Type 0
  Holds xs [] = Unit
  Holds xs (l ∷ ls) = (has_key (log_row run_id attempt l) xs ≡ true) × Holds xs ls

  insert_logs-Holds :
      (ls : List LogLine) (xs : List LogRow) → Holds (insert_logs run_id attempt ls xs) ls
  unfolding insert_logs
  insert_logs-Holds [] xs = tt
  insert_logs-Holds (l ∷ ls) xs =
      let a = log_row run_id attempt l in
      (
        insert_logs-keeps a ls (insert_log a xs) (insert_log-has_key a xs),
        insert_logs-Holds ls (insert_log a xs),
      )

  Holds-insert_logs :
      (ls : List LogLine) (xs : List LogRow) → Holds xs ls → insert_logs run_id attempt ls xs ≡ xs
  unfolding insert_logs insert_log
  Holds-insert_logs [] xs h = refl
  Holds-insert_logs (l ∷ ls) xs h = rw (h.0) (Holds-insert_logs ls xs h.1)

  -- AppendLogs keeps the log table keyed, and a batch that is sent again, say because the answer was
  -- lost, changes nothing.
  pub append_logs-append_logs :
      (ls : List LogLine) (db after : Db)
      → IsKeyed db.logs
      → append_logs run_id attempt ls db ≡ ok after
      → IsKeyed after.logs × (append_logs run_id attempt ls after ≡ ok after)
  unfolding append_logs
  append_logs-append_logs [] db after h e = let k : after ≡ db = cc in rw k (h, refl)
  append_logs-append_logs (l ∷ ls) db after h e = elim (Bool-cases (are_levels (l ∷ ls))) [
    | inr f ↦ let no = rw f at e in cc
    | inl levels ↦ elim (Bool-cases (has_run run_id db)) [
      | inr f ↦ let no = rw (levels, f) at e in cc
      | inl there ↦
          let batch = l ∷ ls in
          let e' = rw (levels, there) at e in
          let same : after ≡ record db { logs = insert_logs run_id attempt batch db.logs } = cc in
          let again =
            Holds-insert_logs batch (insert_logs run_id attempt batch db.logs)
              (insert_logs-Holds batch db.logs) in
          rw same (insert_logs-IsKeyed batch db.logs h, rw (levels, there, again) refl)
    ]
  ]

  has_key-contains :
      (x : LogRow) (k : ℕ) (xs : List LogRow)
      → is_log_of run_id attempt k x ≡ true
      → has_key x xs ≡ false
      → contains ◌==◌ x.seq (map (λ a. a.seq) (select (is_log_of run_id attempt k) xs)) ≡ false
  unfolding has_key
  has_key-contains x k [] m h = refl
  has_key-contains x k (y ∷ ys) m h = let rest = has_key-contains x k ys m in ground arith

  -- The lines of one attempt are numbered apart.
  pub IsKeyed-Distinct :
      (k : ℕ) (xs : List LogRow)
      → IsKeyed xs
      → Distinct ◌==◌ (map (λ a. a.seq) (select (is_log_of run_id attempt k) xs))
  IsKeyed-Distinct k [] h = tt
  IsKeyed-Distinct k (x ∷ xs) h = elim (Bool-cases (is_log_of run_id attempt k x)) [
    | inl t ↦ rw t (has_key-contains x k xs t h.0, IsKeyed-Distinct k xs h.1)
    | inr f ↦ rw f (IsKeyed-Distinct k xs h.1)
  ]
