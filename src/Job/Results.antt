-- ===== src/Job/Results.antt =====
-- What an attempt of a generate_text job returns and logs.
use text.Mathlib.TextLemmas.{append_assoc, append-nil, nil-append}
use jobsys.Base.{
  ℕ, zero, suc, ◌+◌, ◌≤◌, ◌<◌, ◌≡◌, ap, ◌∙◌, String, false, none, List, [], if◌then◌else◌, Result,
  ok, err, ◌<>◌, decimal, leb, ◌==◌, arith, Bool-cases, inl, inr,
}
use jobsys.Base.Int.{pos, ltbℤ, eqℤ, pos_part}
use jobsys.Job.Payload.{GenerateText, IsPayload}
use jobsys.Job.Generate.{
  Context, Logged, line_count, prefix_of, text_line, write_lines, conclude, progress, generate_text,
  pauses,
}

-- Nobody cancels the attempt.
abbrev pub quiet : Context
quiet = record { err_before = λ i. none; err_pausing = λ i. none }

-- The numbered lines from i on, `n` of them.
unfoldable pub numbered : String → ℕ → ℕ → String
numbered prefix i zero = ""
numbered prefix i (suc n) = text_line prefix i <> numbered prefix (i + 1) n

abbrev pub message_fail_at : ℕ → String
message_fail_at n = "deliberate failure after " <> decimal n <> " lines (fail_at)"

abbrev pub message_fail_attempt : ℕ → ℕ → String
message_fail_attempt attempt n =
    "deliberate failure of attempt " <> decimal attempt <> " (fail_attempts=" <> decimal n <> ")"

-- What the payload asks for.
unfoldable pub promised : GenerateText → ℕ → Result String String
promised p attempt =
    if ltbℤ (pos 0) p.fail_at
    then err (message_fail_at (pos_part p.fail_at))
    else if leb attempt (pos_part p.fail_attempts)
    then err (message_fail_attempt attempt (pos_part p.fail_attempts))
    else ok (numbered (prefix_of p) 1 (line_count p))

module _ (p : GenerateText) (attempt : ℕ) where
  -- With no line left to fail at, the loop adds its lines to the text and concludes.
  write_lines-numbered :
      (left i : ℕ) (b : String) (log : List Logged)
      → ltbℤ (pos 0) p.fail_at ≡ false
      → 1 ≤ i
      → (write_lines quiet p attempt left i b log).0
        ≡ (conclude p attempt (b <> numbered (prefix_of p) i left) []).0
  unfolding write_lines conclude numbered
  write_lines-numbered zero i b log none_at h = rw (append-nil b) (ground arith)
  write_lines-numbered (suc left) i b log none_at h =
      let b' = b <> text_line (prefix_of p) i in
      let log' = progress p i log in
      let rest =
        write_lines-numbered left (i + 1) b' log' none_at (omega arith)
        ∙ ap (λ t. (conclude p attempt t []).0)
            (append_assoc b (text_line (prefix_of p) i) (numbered (prefix_of p) (i + 1) left)) in
      let here : eqℤ p.fail_at (pos i) ≡ false = ground arith in
      elim (Bool-cases (pauses p i)) [ inl e ↦ rw (here, e) rest | inr e ↦ rw (here, e) rest ]

  -- A line to fail at among those left ends the attempt there.
  write_lines-fail_at :
      (left i n : ℕ) (b : String) (log : List Logged)
      → p.fail_at ≡ pos n
      → i ≤ n
      → n < i + left
      → (write_lines quiet p attempt left i b log).0 ≡ err (message_fail_at n)
  unfolding write_lines
  write_lines-fail_at zero i n b log at le lt = absurd (omega arith)
  write_lines-fail_at (suc left) i n b log at le lt = elim (Bool-cases (n == i)) [
    | inl e ↦ let k : n ≡ i = ground arith in rw (at, k) (ground arith)
    | inr e ↦
        let far : eqℤ p.fail_at (pos i) ≡ false = rw at e in
        let rest =
          write_lines-fail_at left (i + 1) n (b <> text_line (prefix_of p) i) (progress p i log) at
            (ground arith) (omega arith) in
        elim (Bool-cases (pauses p i)) [ inl q ↦ rw (far, q) rest | inr q ↦ rw (far, q) rest ]
  ]

conclude-promised :
    (p : GenerateText) (attempt : ℕ) (b : String)
    → IsPayload p
    → (conclude p attempt b []).0 ≡ (
        if leb attempt (pos_part p.fail_attempts)
        then err (message_fail_attempt attempt (pos_part p.fail_attempts))
        else ok b)
unfolding conclude
conclude-promised p attempt b v = ground arith

-- An attempt that nobody cancels, on a payload within its bounds: it fails at the line that fail_at
-- names, if it names one; else it fails while attempts are among the first fail_attempts; else it
-- succeeds with every line, numbered from 1 and in order.
pub generate_text-promised :
    (p : GenerateText) (attempt : ℕ)
    → IsPayload p
    → (generate_text quiet p attempt).0 ≡ promised p attempt
unfolding generate_text promised
generate_text-promised p attempt v = elim (Bool-cases (ltbℤ (pos 0) p.fail_at)) [
  | inl e ↦ rw e (
      write_lines-fail_at p attempt (line_count p) 1 (pos_part p.fail_at) "" _ (ground arith)
        (ground arith) (ground arith))
  | inr e ↦ rw e (
      write_lines-numbered p attempt (line_count p) 1 "" _ e (omega arith)
      ∙ ap (λ t. (conclude p attempt t []).0) (nil-append (numbered (prefix_of p) 1 (line_count p)))
      ∙ conclude-promised p attempt (numbered (prefix_of p) 1 (line_count p)) v)
]
