-- ===== src/Ctl/Create.antt =====
-- create of cmd/jobctl/main.go: the request that its flags make. encoding/json is a parameter.
use jobsys.Base.{
  ℕ, suc, ◌≡◌, refl, sym, ap, ◌∙◌, ◌≤◌, String, Bool, true, false, Option, none, some, List, [],
  ◌∷◌, ◌++◌, ◌&&◌, not, Result, ok, err, text_eq, if◌then◌else◌, Bool-cases, inl, inr, arith,
  eq_iff,
}
use jobsys.Base.Int.{ℤ, pos, negsuc, ltbℤ, eqℤ, pos_part}
use jobsys.Store.Models.{NewJob}
use jobsys.Job.Payload.{GenerateText}
use jobsys.Api.{Libraries}
use jobsys.Api.Jobs.{
  CreateJobRequest, new_job, new_max_retries, new_timeout_sec, default_max_retries,
  default_timeout_sec,
}
pub mod Fields
pub mod Accepted

pub record Flags : Type 0 where
  pub name : String
  pub lines : ℤ
  pub prefix : String
  pub delay_ms : ℤ
  pub fail_at : ℤ
  pub fail_attempts : ℤ
  pub cron : String
  pub tz : String
  pub max_retries : ℤ
  pub timeout : ℤ

-- A field of the payload, a map whose keys encoding/json sorts.
pub data Field : Type 0 where
  int_field : String → ℤ → Field
  text_field : String → String → Field

abbrev pub int_if : String → ℤ → List Field
int_if key v = if eqℤ v (pos 0) then [] else int_field key v ∷ []

abbrev pub text_if : String → String → List Field
text_if key v = if text_eq v "" then [] else text_field key v ∷ []

unfoldable pub payload_fields : Flags → List Field
payload_fields f =
    int_if "delay_ms" f.delay_ms
    ++ (int_if "fail_at" f.fail_at
        ++ (int_if "fail_attempts" f.fail_attempts
            ++ (int_field "lines" f.lines ∷ text_if "prefix" f.prefix)))

module _ (marshal : List Field → String) where
  abbrev pub retries_if : ℤ → Option ℤ
  retries_if n = if ltbℤ n (pos 0) then none else some n

  abbrev pub timeout_if : ℤ → Option ℤ
  timeout_if n = if ltbℤ (pos 0) n then some n else none

  unfoldable pub create_request : Flags → Result String CreateJobRequest
  create_request f =
      if text_eq f.name ""
      then err "create: -name is required"
      else ok (record {
        name = f.name;
        type = "generate_text";
        payload = marshal (payload_fields f);
        cron_expr = f.cron;
        timezone = f.tz;
        max_retries = retries_if f.max_retries;
        timeout_sec = timeout_if f.timeout;
      })

-- How encoding/json reads the fields: one that is absent is zero.
unfoldable pub int_in : String → List Field → ℤ
int_in key [] = pos 0
int_in key (int_field k v ∷ fs) = let rest = int_in key fs in if text_eq k key then v else rest
int_in key (text_field k v ∷ fs) = int_in key fs

unfoldable pub text_in : String → List Field → String
text_in key [] = ""
text_in key (int_field k v ∷ fs) = text_in key fs
text_in key (text_field k v ∷ fs) = let rest = text_in key fs in if text_eq k key then v else rest

unfoldable pub payload_in : List Field → GenerateText
payload_in fs = record {
  lines = int_in "lines" fs;
  prefix = text_in "prefix" fs;
  delay_ms = int_in "delay_ms" fs;
  fail_at = int_in "fail_at" fs;
  fail_attempts = int_in "fail_attempts" fs;
}

-- The payload that the flags ask for.
abbrev pub payload_of : Flags → GenerateText
payload_of f = record {
  lines = f.lines;
  prefix = f.prefix;
  delay_ms = f.delay_ms;
  fail_at = f.fail_at;
  fail_attempts = f.fail_attempts;
}
