-- ===== src/App.antt =====
-- internal/app/app.go: waiting for Postgres and Kafka, and settings from the environment.
-- strconv.Atoi, time.ParseDuration and strings.TrimSpace are parameters.
use Prim.Native.Char.{code}
use Prim.Native.Nat.{min}
use jobsys.Base.{
  ℕ, ◌+◌, ◌*◌, ◌<>◌, String, Bool, true, false, ◌||◌, ◌&&◌, ◌==◌, ltb, Option, none, some, List, [],
  ◌∷◌, Result, ok, err, text_eq, if◌then◌else◌,
}
use jobsys.Base.Int.{ℤ}
pub mod Waiting
pub mod Config
pub mod Process
pub mod Startup
pub mod Opened
pub mod Leaving
pub mod Tests

-- Times in milliseconds.
abbrev pub startup_timeout : ℕ
startup_timeout = 3 * 60000

abbrev pub max_backoff : ℕ
max_backoff = 5000

abbrev pub initial_backoff : ℕ
initial_backoff = 500

-- One call of `check`: how long it took, its error, and which case the select takes if both are ready
-- at once.
pub record Check : Type 0 where
  pub took : ℕ
  pub failure : Option String
  pub favours_timer : Bool

-- The number of the last check, and its error where it failed. `pending` stands for a loop whose next
-- check has not been made.
pub data Waited : Type 0 where
  ready : ℕ → Waited
  not_ready : ℕ → String → Waited
  pending : Waited

-- The texts of what is waited for and of the timeout.
module _ (what timeout : String) where
  abbrev pub last_error : String → String
  last_error e = what <> (" not ready after " <> (timeout <> (": " <> e)))

  abbrev pub give_up : ℕ → String → Waited
  give_up attempt e = not_ready attempt (last_error e)

  -- The loop, in a context that ends at `over`: the number of the next attempt, its backoff and the
  -- time it starts.
  unfoldable pub wait_loop : ℕ → List Check → ℕ → ℕ → ℕ → Waited
  wait_loop over [] attempt backoff time = pending
  wait_loop over (c ∷ cs) attempt backoff time =
      let later = time + c.took + backoff in
      let rest = wait_loop over cs (attempt + 1) (min (backoff * 2) max_backoff) later in
      elim c.failure [
        | none ↦ ready attempt
        | some e ↦
            if ltb later over || (later == over && c.favours_timer) then rest else give_up attempt e
      ]

  unfoldable pub wait_for : ℕ → List Check → Waited
  wait_for over cs = wait_loop over cs 1 initial_backoff 0

-- What os.Getenv answers.
module _ (getenv : String → String) where
  unfoldable pub env : String → String → String
  env key def = if text_eq (getenv key) "" then def else getenv key

  abbrev pub with_key : String → Result String ℤ → Result String ℤ
  with_key key (ok n) = ok n
  with_key key (err e) = err (key <> (": " <> e))

  unfoldable pub env_int : (String → Result String ℤ) → String → ℤ → Result String ℤ
  env_int atoi key def =
      if text_eq (getenv key) "" then ok def else with_key key (atoi (getenv key))

  unfoldable pub env_duration : (String → Result String ℤ) → String → ℤ → Result String ℤ
  env_duration parse_duration key def =
      if text_eq (getenv key) "" then ok def else with_key key (parse_duration (getenv key))

-- strings.Split(s, ",").
abbrev pub before_first : String → List String → List String
before_first c [] = c ∷ []
before_first c (p ∷ ps) = (c <> p) ∷ ps

unfoldable pub split_commas : String → List String
split_commas String.[] = "" ∷ []
split_commas (String.◌∷◌ c s) =
    let parts = split_commas s in
    if code c == b',' then "" ∷ parts else before_first (String.◌∷◌ c "") parts

abbrev pub filled_parts : (String → String) → List String → List String
filled_parts trim_space [] = []
filled_parts trim_space (p ∷ ps) =
    let rest = filled_parts trim_space ps in
    if text_eq (trim_space p) "" then rest else trim_space p ∷ rest

unfoldable pub split_list : (String → String) → String → List String
unfolding split_commas
split_list trim_space s = filled_parts trim_space (split_commas s)
