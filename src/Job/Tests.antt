-- ===== src/Job/Tests.antt =====
-- Payloads and attempts at concrete values.
use jobsys.Base.{◌≡◌, ◌≤◌, refl, none, some, arith, length, decimal}
use jobsys.Base.Int.{pos}
use jobsys.Job.Payload.{GenerateText, IsPayload, validate, validate-IsPayload}
use jobsys.Job.Generate.{Context, generate_text}
use jobsys.Job.Results.{quiet, generate_text-promised, numbered, promised}
use jobsys.Job.Logs.{generate_text-logs}

abbrev rows : GenerateText
rows = record {
  lines = pos 2;
  prefix = "row";
  delay_ms = pos 0;
  fail_at = pos 0;
  fail_attempts = pos 1;
}

rows-IsPayload : IsPayload rows
rows-IsPayload = ground arith

rows_text : numbered "row" 1 2 ≡ "row 1\nrow 2\n"
unfolding numbered decimal
rows_text = refl

fail_at_too_far :
    validate (record rows { fail_at = pos 3 })
    ≡ some "payload.fail_at must be between 0 and lines (2)"
unfolding validate decimal
fail_at_too_far = refl

validate-IsPayload_example : validate rows ≡ none
validate-IsPayload_example = (validate-IsPayload rows).1 rows-IsPayload

generate_text-promised_example : (generate_text quiet rows 2).0 ≡ promised rows 2
generate_text-promised_example = generate_text-promised rows 2 rows-IsPayload

-- The attempt is cancelled during its pause after line 1.
abbrev cut : Context
cut = record { err_before = λ i. none; err_pausing = λ i. some "context canceled" }

generate_text-logs_example : length (generate_text cut (record rows { delay_ms = pos 5 }) 1).1 ≤ 42
generate_text-logs_example = generate_text-logs cut (record rows { delay_ms = pos 5 }) 1
