-- ===== src/Ctl/Create/Accepted.antt =====
-- What the server makes of the request of jobctl create.
use jobsys.Base.{
  ℕ, ◌≡◌, refl, ap, ◌∙◌, String, false, List, ok, text_eq, if◌then◌else◌, Bool-cases, inl, inr,
  arith,
}
use jobsys.Base.Int.{ℤ, pos, negsuc, ltbℤ, pos_part}
use jobsys.Store.Models.{NewJob}
use jobsys.Api.{Libraries}
use jobsys.Api.Offers.{new_job-IsBuilt}
use jobsys.Api.Jobs.{
  CreateJobRequest, new_job, new_max_retries, new_timeout_sec, default_max_retries,
  default_timeout_sec,
}
use jobsys.Ctl.Create.{
  Flags, Field, payload_fields, retries_if, timeout_if, create_request, payload_in, payload_of,
}
use jobsys.Ctl.Create.Fields.{payload_in-payload_fields}

module _ (lib : Libraries) (marshal : List Field → String) where
  retries_asked :
      (z : ℤ) (m : ℕ)
      → new_max_retries lib (retries_if marshal z) ≡ ok m
      → m ≡ (if ltbℤ z (pos 0) then default_max_retries else pos_part z)
  retries_asked (pos k) m e = ground arith
  retries_asked (negsuc k) m e = ground arith

  timeout_asked :
      (z : ℤ) (m : ℕ)
      → new_timeout_sec lib (timeout_if marshal z) ≡ ok m
      → m ≡ (if ltbℤ (pos 0) z then pos_part z else default_timeout_sec)
  timeout_asked (pos k) m e = ground arith
  timeout_asked (negsuc k) m e = ground arith

  abbrev pub requested : Flags → CreateJobRequest
  requested f = record {
    name = f.name;
    type = "generate_text";
    payload = marshal (payload_fields f);
    cron_expr = f.cron;
    timezone = f.tz;
    max_retries = retries_if marshal f.max_retries;
    timeout_sec = timeout_if marshal f.timeout;
  }

  create_request-requested :
      (f : Flags) (req : CreateJobRequest) → create_request marshal f ≡ ok req → req ≡ requested f
  unfolding create_request
  create_request-requested f req e = elim (Bool-cases (text_eq f.name "")) [
    | inl t ↦ let no = rw t at e in cc
    | inr t ↦ let made = rw t at e in cc
  ]

-- What `jobctl create` asks for is what the server takes: if newJob accepts the request, the job
-- has the name, trimmed, and the payload of the flags, and the flags' retries and timeout, where
-- -max-retries -1 and -timeout 0 stand for the server's. encoding/json reads the fields that it
-- wrote, and an absent one as zero.
pub create_request-new_job :
    (lib : Libraries) (marshal : List Field → String) (now : ℕ) (f : Flags) (req : CreateJobRequest)
    (n : NewJob)
    → lib.decode (marshal (payload_fields f)) ≡ ok (payload_in (payload_fields f))
    → text_eq (marshal (payload_fields f)) "" ≡ false
    → create_request marshal f ≡ ok req
    → new_job lib now req ≡ ok n
    → (n.name ≡ lib.trim_space f.name)
      × ((lib.decode n.payload ≡ ok (payload_of f))
          × ((n.max_retries ≡ (
                if ltbℤ f.max_retries (pos 0) then default_max_retries else pos_part f.max_retries))
              × (n.timeout_sec
                  ≡ (if ltbℤ (pos 0) f.timeout then pos_part f.timeout else default_timeout_sec))))
create_request-new_job lib marshal now f req n reads filled asked accepted =
    let same = create_request-requested lib marshal f req asked in
    let built = new_job-IsBuilt lib now (requested lib marshal f) n (rw same at accepted) in
    let kept : n.payload ≡ marshal (payload_fields f) = built.payload_is ∙ rw filled refl in
    (
      built.name_is,
      (
        ap lib.decode kept ∙ reads ∙ ap ok (payload_in-payload_fields f),
        (
          retries_asked lib marshal f.max_retries n.max_retries built.retries_are,
          timeout_asked lib marshal f.timeout n.timeout_sec built.timeout_is,
        ),
      ),
    )
