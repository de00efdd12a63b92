-- ===== src/Job/Cron.antt =====
-- NextRun: when a cron expression next fires. The time zone database (time.LoadLocation) and the
-- cron library (robfig/cron) are a record of what the function asks of them.
use jobsys.Base.{
  ℕ, String, ◌<◌, ◌≡◌, refl, Option, none, some, Result, ok, err, ◌<>◌, text_eq, if◌then◌else◌,
  arith, Bool-cases, inl, inr, true,
}

pub record Clockwork : Type 1 where
  pub Location : Type 0
  pub Schedule : Type 0
  pub load_location : String → Option Location
  pub parse_standard : String → Result String Schedule
  -- Schedule.Next in a zone; `none` is the zero time.
  pub next : Schedule → Location → ℕ → Option ℕ

-- `quote` is fmt's %q.
module _ (quote : String → String) (c : Clockwork) where
  open c use {Location, Schedule, load_location, parse_standard, next}

  abbrev pub fires : String → Option ℕ → Result String ℕ
  fires expr none = err ("cron_expr " <> quote expr <> " never fires")
  fires expr (some t) = ok t

  abbrev pub scheduled : String → Location → ℕ → Result String Schedule → Result String ℕ
  scheduled expr loc after (err e) = err ("invalid cron_expr: " <> e)
  scheduled expr loc after (ok s) = fires expr (next s loc after)

  abbrev pub located : String → String → ℕ → Option Location → Result String ℕ
  located expr tz after none = err ("unknown timezone " <> quote tz)
  located expr tz after (some loc) =
      if text_eq tz "Local"
      then err ("unknown timezone " <> quote tz)
      else scheduled expr loc after (parse_standard expr)

  unfoldable pub next_run : String → String → ℕ → Result String ℕ
  next_run expr tz after = located expr tz after (load_location tz)

  -- If a schedule's next activation is later than the time asked about, which the cron library
  -- documents, then so is every answer of NextRun.
  pub next_run-later :
      ((s : Schedule) (loc : Location) (after t : ℕ) → next s loc after ≡ some t → after < t)
      → (expr tz : String) (after t : ℕ) → next_run expr tz after ≡ ok t
      → after < t
  unfolding next_run
  next_run-later later expr tz after t h = from_location (load_location tz) h
    where
      from_next :
          (o : Option ℕ) → ((u : ℕ) → o ≡ some u → after < u) → fires expr o ≡ ok t → after < t
      from_next none k e = cc
      from_next (some u) k e = let same : u ≡ t = ground arith in rw same at (k u refl)

      from_schedule :
          (loc : Location) (r : Result String Schedule)
          → scheduled expr loc after r ≡ ok t
          → after < t
      from_schedule loc (err x) e = cc
      from_schedule loc (ok s) e = from_next (next s loc after) (later s loc after) e

      from_location : (o : Option Location) → located expr tz after o ≡ ok t → after < t
      from_location none e = cc
      from_location (some loc) e = elim (Bool-cases (text_eq tz "Local")) [
        | inl l ↦
            let e' : (if true
                  then err ("unknown timezone " <> quote tz)
                  else scheduled expr loc after (parse_standard expr))
                ≡ ok t =
              rw l at e in
            cc
        | inr l ↦ from_schedule loc (parse_standard expr) (rw l at e)
      ]
