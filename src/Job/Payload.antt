-- ===== src/Job/Payload.antt =====
-- The payload of a generate_text job and its validation. `int` fields are integers.
use jobsys.Base.{
  ℕ, String, Bool, Option, none, some, ◌||◌, ◌≤◌, ◌≡◌, ◌↔◌, if◌then◌else◌, Result, ok, err, text_eq,
  ◌<>◌, decimal, arith,
}
use jobsys.Base.Int.{ℤ, pos, negsuc, ltbℤ, pos_part}

pub record GenerateText : Type 0 where
  pub lines : ℤ
  pub prefix : String
  pub delay_ms : ℤ
  pub fail_at : ℤ
  pub fail_attempts : ℤ

abbrev pub max_lines : ℕ
max_lines = 100_000

abbrev pub max_delay_ms : ℕ
max_delay_ms = 10_000

abbrev pub max_fail_attempts : ℕ
max_fail_attempts = 10

-- x < lo || x > hi
abbrev pub outside : ℤ → ℤ → ℤ → Bool
outside lo hi x = ltbℤ x lo || ltbℤ hi x

-- `none` is nil.
unfoldable pub validate : GenerateText → Option String
validate p =
    if outside (pos 1) (pos max_lines) p.lines
    then some "payload.lines must be between 1 and 100000"
    else if outside (pos 0) (pos max_delay_ms) p.delay_ms
    then some "payload.delay_ms must be between 0 and 10000"
    else if outside (pos 0) p.lines p.fail_at
    then some ("payload.fail_at must be between 0 and lines (" <> decimal (pos_part p.lines) <> ")")
    else if outside (pos 0) (pos max_fail_attempts) p.fail_attempts
    then some "payload.fail_attempts must be between 0 and 10"
    else none

-- The range of a number that is not negative.
abbrev pub Between : ℕ → ℕ → ℤ → Type 0
Between lo hi (pos n) = (lo ≤ n) × (n ≤ hi)
Between lo hi (negsuc n) = ⊥

-- The documented bounds of a payload.
pub record IsPayload (p : GenerateText) : Type 0 where
  pub lines_bounded : Between 1 max_lines p.lines
  pub delay_bounded : Between 0 max_delay_ms p.delay_ms
  pub fail_at_bounded : Between 0 (pos_part p.lines) p.fail_at
  pub fail_attempts_bounded : Between 0 max_fail_attempts p.fail_attempts

-- A payload passes validation exactly if it keeps the documented bounds.
pub validate-IsPayload : (p : GenerateText) → (validate p ≡ none) ↔ IsPayload p
unfolding validate
validate-IsPayload p = (λ h. ground arith, λ h. ground arith)

abbrev pub error_of {ℓ} : {A : Type ℓ} → Result String A → Option String
error_of (ok p) = none
error_of (err e) = some e

-- What encoding/json makes of a payload: its own error, or the fields, unknown ones refused.
module _ (decode : String → Result String GenerateText) where
  abbrev pub checked : GenerateText → Option String → Result String GenerateText
  checked p none = ok p
  checked p (some e) = err e

  unfoldable pub parse_generate_text : String → Result String GenerateText
  parse_generate_text payload = elim (decode payload) [
    | ok p ↦ checked p (validate p)
    | err e ↦ err ("invalid payload: " <> e)
  ]

-- `quote` is fmt's %q.
module _ (decode : String → Result String GenerateText) (quote : String → String) where
  unfoldable pub validate_job : String → String → Option String
  validate_job job_type payload =
      if text_eq job_type "generate_text"
      then error_of (parse_generate_text decode payload)
      else if text_eq job_type ""
      then some "type is required"
      else some ("unknown job type " <> quote job_type)
