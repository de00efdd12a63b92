-- ===== src/Job/Logs.antt =====
-- How much an attempt logs.
use Prim.Native.Nat.{max, min}
use native.Mathlib.Nat.{div-lt_iff_lt-mul}
use jobsys.Base.{
  ℕ, zero, suc, ◌+◌, ◌-◌, ◌*◌, ◌/◌, ◌%◌, ◌≤◌, ◌<◌, ◌≡◌, String, List, [], ◌∷◌, ◌<>◌, decimal, ◌==◌,
  arith, length, length-append, Bool-cases, inl, inr, Option-cases, ◌≢◌,
}
use jobsys.Base.Int.{pos, ltbℤ, eqℤ}
use jobsys.Job.Payload.{GenerateText}
use jobsys.Job.Generate.{
  Context, Logged, line_count, text_line, prefix_of, write_lines, conclude, progress, every_of,
  generate_text, pauses, error, info,
}

div_mult : (e i : ℕ) → 1 ≤ e → 1 ≤ i → i % e ≡ 0 → i / e ≡ (i - 1) / e + 1
div_mult e i h k z = grind arith

div_rest : (e i : ℕ) → 1 ≤ e → 1 ≤ i → i % e ≢ 0 → i / e ≡ (i - 1) / e
div_rest e i h k z = grind arith

div_mono : (e i n : ℕ) → 1 ≤ e → i ≤ n → i / e ≤ n / e
div_mono e i n h k = grind arith

few_by : (n q : ℕ) → 1 ≤ q → n < 40 * q → n / q ≤ 39
few_by n q h k = let d : n / q < 40 = (div-lt_iff_lt-mul h).1 k in omega arith

reports_few : (n : ℕ) → n / max 1 (n / 20) ≤ 39
reports_few n = few_by n (max 1 (n / 20)) (omega arith) (omega arith)

-- The most lines that the rest of the loop logs: a report for each multiple of `every`, one for the
-- last line, and one for a failure.
abbrev budget : ℕ → ℕ → ℕ → ℕ → ℕ
budget n every left i = (n / every - (i - 1) / every) + min 1 left + 1

module _ (n e left i : ℕ) (e_pos : 1 ≤ e) (i_pos : 1 ≤ i) (goes : i + suc left ≡ n + 1) where
  budget-mult : i % e ≡ 0 → 1 + budget n e left (i + 1) ≤ budget n e (suc left) i
  budget-mult z =
      let d = div_mult e i e_pos i_pos z in
      let m = div_mono e i n e_pos (omega arith) in
      let same : i + 1 - 1 ≡ i = omega arith in rw same (omega arith)

  budget-rest : i % e ≢ 0 → budget n e left (i + 1) ≤ budget n e (suc left) i
  budget-rest z =
      let d = div_rest e i e_pos i_pos z in
      let same : i + 1 - 1 ≡ i = omega arith in rw same (omega arith)

  budget-last : i % e ≢ 0 → i ≡ n → 1 + budget n e left (i + 1) ≤ budget n e (suc left) i
  budget-last z l =
      let d = div_rest e i e_pos i_pos z in
      let same : i + 1 - 1 ≡ i = omega arith in rw same (omega arith)

module _ (ctx : Context) (p : GenerateText) (attempt : ℕ) where
  conclude-logs :
      (b : String) (log : List Logged) → length (conclude p attempt b log).1 ≤ length log + 1
  unfolding conclude
  conclude-logs b log = elim (Bool-cases (ltbℤ p.fail_attempts (pos attempt))) [
    | inl e ↦ rw e (omega arith)
    | inr e ↦ rw e (omega (arith, length-append log (_ ∷ [])))
  ]

  progress-logs :
      (left i : ℕ) (log : List Logged)
      → 1 ≤ i
      → i + suc left ≡ line_count p + 1
      → length (progress p i log) + budget (line_count p) (every_of p) left (i + 1)
        ≤ length log + budget (line_count p) (every_of p) (suc left) i
  progress-logs left i log h k =
      let n = line_count p in
      let e = every_of p in
      let pos_e : 1 ≤ e = omega arith in
      let one_more =
        length-append log
          (info ("wrote " <> decimal i <> "/" <> decimal (line_count p) <> " lines") ∷ []) in
      elim (Bool-cases (i % e == 0)) [
        | inl m ↦ let b = budget-mult n e left i pos_e h k (ground arith) in rw m (omega arith)
        | inr m ↦ elim (Bool-cases (i == n)) [
          | inl l ↦
              let b = budget-last n e left i pos_e h k (ground arith) (ground arith) in
              rw (m, l) (omega arith)
          | inr l ↦
              let b = budget-rest n e left i pos_e h k (ground arith) in rw (m, l) (omega arith)
        ]
      ]

  write_lines-logs :
      (left i : ℕ) (b : String) (log : List Logged)
      → 1 ≤ i
      → i + left ≡ line_count p + 1
      → length (write_lines ctx p attempt left i b log).1
        ≤ length log + budget (line_count p) (every_of p) left i
  unfolding write_lines
  write_lines-logs zero i b log h k = omega (arith, conclude-logs b log)
  write_lines-logs (suc left) i b log h k =
      let b' = b <> text_line (prefix_of p) i in
      let log' = progress p i log in
      let more = progress-logs left i log h k in
      let ih = write_lines-logs left (i + 1) b' log' (omega arith) (omega arith) in
      let failing =
        length-append log (error ("failing on purpose after " <> decimal i <> " lines") ∷ []) in
      elim (Option-cases (ctx.err_before i)) [
        | inr (x, e) ↦ rw (e, write_lines) (omega arith)
        | inl e ↦ elim (Bool-cases (eqℤ p.fail_at (pos i))) [
          | inl f ↦ rw (e, write_lines, f) (omega arith)
          | inr f ↦ elim (Bool-cases (pauses p i)) [
            | inr q ↦ rw (e, write_lines, f, q) (omega arith)
            | inl q ↦ elim (Option-cases (ctx.err_pausing i)) [
              | inr (x, g) ↦ rw (e, write_lines, f, q, g) (omega arith)
              | inl g ↦ rw (e, write_lines, f, q, g) (omega arith)
            ]
          ]
        ]
      ]

-- However many lines an attempt writes, and however it ends, it logs at most 42 lines.
pub generate_text-logs :
    (ctx : Context) (p : GenerateText) (attempt : ℕ) → length (generate_text ctx p attempt).1 ≤ 42
unfolding generate_text
generate_text-logs ctx p attempt = omega (
  arith,
  write_lines-logs ctx p attempt (line_count p) 1 ""
      (info ("generating " <> decimal (line_count p) <> " lines") ∷ []) (omega arith) (omega arith),
  reports_few (line_count p),
)
