-- ===== src/Api/Offers.antt =====
-- What newJob and handleCreateJob of internal/api/handlers.go let into the table of jobs.
use jobsys.Base.{
  ℕ, ◌≤◌, ◌≡◌, refl, sym, ap, inl, inr, String, false, Option, none, some, text_eq, Result, ok, err,
  ◌>>=◌, Bool-cases, arith, [], ◌∷◌, ◌++◌,
}
use jobsys.Base.Int.{ℤ}
use jobsys.Store.Models.{Job, NewJob, Db}
use jobsys.Job.Payload.{validate_job}
use jobsys.Job.Cron.{next_run}
use jobsys.Api.{Libraries}
use jobsys.Api.Jobs.{
  CreateJobRequest, new_job, or_default, checked_type, new_max_retries, new_timeout_sec,
  new_schedule, check_timezone, max_max_retries, max_timeout_sec,
}

module _ (lib : Libraries) where
  open lib use {trim_space, quote, decode, clockwork}

  -- A schedule and its first time, or neither.
  abbrev Schedules : ℕ → String → Option String → Option ℕ → Type 0
  Schedules now tz none none = Unit {0}
  Schedules now tz (some expr) (some t) = next_run quote clockwork expr tz now ≡ ok t
  Schedules now tz _ _ = ⊥

  pub record IsOffer (now : ℕ) (n : NewJob) : Type 0 where
    pub named : text_eq n.name "" ≡ false
    pub valid : validate_job decode quote n.type n.payload ≡ none
    pub schedules : Schedules now n.timezone n.cron_expr n.next_run_at
    pub retries_bounded : n.max_retries ≤ max_max_retries
    pub timeout_positive : 1 ≤ n.timeout_sec
    pub timeout_bounded : n.timeout_sec ≤ max_timeout_sec

ok-injective {ℓ} : {A : Type ℓ} {a b : A} → ◌≡◌ {A = Result String A} (ok a) (ok b) → a ≡ b
ok-injective h = cc

checked_type-ok : (o : Option String) (u : Unit {0}) → checked_type o ≡ ok u → o ≡ none
checked_type-ok none u e = refl
checked_type-ok (some x) u e = cc

-- The table after the INSERT of an offer.
abbrev with_job : Job → Db → Db
with_job j db = record db { jobs = db.jobs ++ j ∷ [] }

module _ (lib : Libraries) where
  new_max_retries-bound :
      (o : Option ℤ) (n : ℕ) → new_max_retries lib o ≡ ok n → n ≤ max_max_retries
  new_max_retries-bound none n e = ground arith
  new_max_retries-bound (some z) n e = ground arith

  new_timeout_sec-bound :
      (o : Option ℤ) (n : ℕ) → new_timeout_sec lib o ≡ ok n → (1 ≤ n) × (n ≤ max_timeout_sec)
  new_timeout_sec-bound none n e = (ground arith, ground arith)
  new_timeout_sec-bound (some z) n e = (ground arith, ground arith)

  new_schedule-Schedules :
      (expr tz : String) (now : ℕ) (s : Option String × Option ℕ)
      → new_schedule lib expr tz now ≡ ok s
      → Schedules lib now tz s.0 s.1
  new_schedule-Schedules expr tz now s e = elim (Bool-cases (text_eq expr "")) [
    | inl t ↦
        let none_set : ok (none, none) ≡ ok s = rw t at e in rw (sym (ok-injective none_set)) tt
    | inr f ↦ from_next (next_run lib.quote lib.clockwork expr tz now) refl (rw f at e)
  ]
    where
      from_next :
          (o : Result String ℕ)
          → next_run lib.quote lib.clockwork expr tz now ≡ o
          → (do next ← o; ok (some expr, some next)) ≡ ok s
          → Schedules lib now tz s.0 s.1
      from_next (err x) k h = cc
      from_next (ok t) k h = rw (sym (ok-injective h)) k

  module _ (now : ℕ) (req : CreateJobRequest) (n : NewJob) where
    -- Where each column of a job that newJob accepts comes from.
    pub record IsBuilt : Type 0 where
      pub filled : text_eq (lib.trim_space req.name) "" ≡ false
      pub name_is : n.name ≡ lib.trim_space req.name
      pub type_is : n.type ≡ req.type
      pub payload_is : n.payload ≡ or_default req.payload "{}"
      pub zone_is : n.timezone ≡ or_default req.timezone "UTC"
      pub known : checked_type (validate_job lib.decode lib.quote n.type n.payload) ≡ ok tt
      pub schedule_is :
          new_schedule lib (lib.trim_space req.cron_expr) n.timezone now
          ≡ ok (n.cron_expr, n.next_run_at)
      pub retries_are : new_max_retries lib req.max_retries ≡ ok n.max_retries
      pub timeout_is : new_timeout_sec lib req.timeout_sec ≡ ok n.timeout_sec

    abbrev name : String
    name = lib.trim_space req.name

    abbrev payload : String
    payload = or_default req.payload "{}"

    abbrev tz : String
    tz = or_default req.timezone "UTC"

    from_checks :
        (known zone : Result String (Unit {0}))
        (schedule : Result String (Option String × Option ℕ))
        (max_retries timeout_sec : Result String ℕ)
        → text_eq name "" ≡ false
        → checked_type (validate_job lib.decode lib.quote req.type payload) ≡ known
        → new_schedule lib (lib.trim_space req.cron_expr) tz now ≡ schedule
        → new_max_retries lib req.max_retries ≡ max_retries
        → new_timeout_sec lib req.timeout_sec ≡ timeout_sec
        → (do
          k ← known
          z ← zone
          s ← schedule
          r ← max_retries
          t ← timeout_sec
          ok (record {
            name = name;
            type = req.type;
            payload = payload;
            cron_expr = s.0;
            timezone = tz;
            next_run_at = s.1;
            max_retries = r;
            timeout_sec = t;
          }))
          ≡ ok n
        → IsBuilt
    from_checks (err x) z s r t f v sc rb tb h = cc
    from_checks (ok k) (err x) s r t f v sc rb tb h = cc
    from_checks (ok k) (ok z) (err x) r t f v sc rb tb h = cc
    from_checks (ok k) (ok z) (ok s) (err x) t f v sc rb tb h = cc
    from_checks (ok k) (ok z) (ok s) (ok r) (err x) f v sc rb tb h = cc
    from_checks (ok k) (ok z) (ok s) (ok r) (ok t) f v sc rb tb h =
        let same = ok-injective h in
        record {
          filled = f;
          name_is = ap (λ m. m.name) (sym same);
          type_is = ap (λ m. m.type) (sym same);
          payload_is = ap (λ m. m.payload) (sym same);
          zone_is = ap (λ m. m.timezone) (sym same);
          known = rw (sym same) v;
          schedule_is = rw (sym same) sc;
          retries_are = rw (sym same) rb;
          timeout_is = rw (sym same) tb;
        }

    pub new_job-IsBuilt : new_job lib now req ≡ ok n → IsBuilt
    unfolding new_job
    new_job-IsBuilt e = elim (Bool-cases (text_eq name "")) [
      | inl t ↦ let no = rw t at e in cc
      | inr f ↦
          from_checks (checked_type (validate_job lib.decode lib.quote req.type payload))
            (check_timezone lib tz) (new_schedule lib (lib.trim_space req.cron_expr) tz now)
            (new_max_retries lib req.max_retries) (new_timeout_sec lib req.timeout_sec) f refl refl
            refl refl (rw f at e)
    ]

  -- What newJob accepts can be stored and run: the job has a name, a known type with a valid
  -- payload, retries and a timeout within their limits, and either no schedule or a cron expression
  -- with the first time that NextRun gives for it in the job's time zone.
  pub new_job-IsOffer :
      (now : ℕ) (req : CreateJobRequest) (n : NewJob)
      → new_job lib now req ≡ ok n
      → IsOffer lib now n
  new_job-IsOffer now req n e =
      let built = new_job-IsBuilt now req n e in
      let bounds = new_timeout_sec-bound req.timeout_sec n.timeout_sec built.timeout_is in
      record {
        named = rw built.name_is built.filled;
        valid = checked_type-ok (validate_job lib.decode lib.quote n.type n.payload) tt built.known;
        schedules =
            new_schedule-Schedules (lib.trim_space req.cron_expr) n.timezone now
              (n.cron_expr, n.next_run_at) built.schedule_is;
        retries_bounded = new_max_retries-bound req.max_retries n.max_retries built.retries_are;
        timeout_positive = bounds.0;
        timeout_bounded = bounds.1;
      }
