-- ===== src/Job/Generate.antt =====
-- What one attempt of a generate_text job does: its output, its log, its deliberate failures.
use Prim.Native.Nat.{max}
use jobsys.Base.{
  ℕ, zero, suc, ◌+◌, ◌/◌, ◌%◌, String, Bool, Option, none, some, ◌||◌, ◌&&◌, List, [], ◌∷◌, ◌++◌,
  if◌then◌else◌, Result, ok, err, text_eq, ◌<>◌, decimal, ltb, ◌==◌,
}
use jobsys.Base.Int.{pos, ltbℤ, eqℤ, pos_part}
use jobsys.Job.Payload.{GenerateText, parse_generate_text}

-- What the attempt sees of its context: the error of ctx.Err() before line i, and that of the pause
-- after line i.
pub record Context : Type 0 where
  pub err_before : ℕ → Option String
  pub err_pausing : ℕ → Option String

-- Logger.Log(level, line).
pub record Logged : Type 0 where
  pub level : String
  pub line : String

abbrev pub info : String → Logged
info l = record { level = "info"; line = l }

abbrev pub error : String → Logged
error l = record { level = "error"; line = l }

abbrev pub prefix_of : GenerateText → String
prefix_of p = if text_eq p.prefix "" then "line" else p.prefix

abbrev pub line_count : GenerateText → ℕ
line_count p = pos_part p.lines

abbrev pub every_of : GenerateText → ℕ
every_of p = max 1 (line_count p / 20)

-- fmt.Fprintf(&b, "%s %d\n", prefix, i)
abbrev pub text_line : String → ℕ → String
text_line prefix i = prefix <> " " <> decimal i <> "\n"

abbrev pub reports : GenerateText → ℕ → Bool
reports p i = i % every_of p == 0 || i == line_count p

abbrev pub progress : GenerateText → ℕ → List Logged → List Logged
progress p i log =
    if reports p i
    then log ++ info ("wrote " <> decimal i <> "/" <> decimal (line_count p) <> " lines") ∷ []
    else log

abbrev pub Outcome : Type 0
Outcome = Result String String × List Logged

-- After the loop.
unfoldable pub conclude : GenerateText → ℕ → String → List Logged → Outcome
conclude p attempt b log =
    let k = decimal attempt in
    let n = decimal (pos_part p.fail_attempts) in
    if ltbℤ p.fail_attempts (pos attempt) then (ok b, log) else (
      err ("deliberate failure of attempt " <> k <> " (fail_attempts=" <> n <> ")"),
      log ++ error ("failing attempt " <> k <> " on purpose (fail_attempts=" <> n <> ")") ∷ [],
    )

-- `if p.DelayMs > 0 && i < p.Lines`.
abbrev pub pauses : GenerateText → ℕ → Bool
pauses p i = ltbℤ (pos 0) p.delay_ms && ltb i (line_count p)

-- The loop from line i on, with `left` lines to go.
unfoldable pub write_lines : Context → GenerateText → ℕ → ℕ → ℕ → String → List Logged → Outcome
write_lines ctx p attempt zero i b log = conclude p attempt b log
write_lines ctx p attempt (suc left) i b log =
    let b' = b <> text_line (prefix_of p) i in
    let log' = progress p i log in
    let rest = write_lines ctx p attempt left (i + 1) b' log' in
    elim (ctx.err_before i) [
      | some e ↦ (err e, log)
      | none ↦
          if eqℤ p.fail_at (pos i)
          then (
            err ("deliberate failure after " <> decimal i <> " lines (fail_at)"),
            log ++ error ("failing on purpose after " <> decimal i <> " lines") ∷ [],
          )
          else if pauses p i
          then (elim (ctx.err_pausing i) [ some e ↦ (err e, log') | none ↦ rest ])
          else rest
    ]

unfoldable pub generate_text : Context → GenerateText → ℕ → Outcome
generate_text ctx p attempt =
    write_lines ctx p attempt (line_count p) 1 ""
      (info ("generating " <> decimal (line_count p) <> " lines") ∷ [])

-- The parameters are those of Job.Payload.
module _ (decode : String → Result String GenerateText) (quote : String → String) where
  unfoldable pub run : Context → String → String → ℕ → Outcome
  run ctx job_type payload attempt =
      if text_eq job_type "generate_text"
      then (elim (parse_generate_text decode payload) [
        | ok p ↦ generate_text ctx p attempt
        | err e ↦ (err e, [])
      ])
      else (err ("unknown job type " <> quote job_type), [])
