-- ===== src/App/Startup.antt =====
-- OpenDB and WaitForTopic of internal/app/app.go, and Open of internal/store/store.go. What pgx and
-- kafka-go answer to each attempt is given.
use jobsys.Base.{
  ℕ, zero, suc, String, Bool, Option, none, some, List, [], ◌∷◌, ◌++◌, map, Result, ok, err, ◌<>◌,
  take, length,
}
use jobsys.Queue.{check_topic}
use jobsys.App.{Check, Waited, ready, not_ready, pending, wait_for, env}
use jobsys.App.Process.{Act, opens, closes, postgres, Ended, gave, failed, waiting}

-- One attempt to connect: how pgxpool.NewWithConfig and Ping go.
pub record Connecting : Type 0 where
  pub took : ℕ
  pub creating : Option String
  pub pinging : Option String
  pub favours_timer : Bool

-- One attempt to reach the topic: what each broker answers.
pub record Asking : Type 0 where
  pub took : ℕ
  pub dial : String → Option String
  pub read_partitions : String → Result String ℕ
  pub favours_timer : Bool

abbrev pub postgres_opened : Option String → List Act × Option String
postgres_opened none = (opens postgres ∷ [], none)
postgres_opened (some e) = (opens postgres ∷ closes postgres ∷ [], some ("ping postgres: " <> e))

-- The pool is closed again if it does not answer. `parse_config` is the error of
-- pgxpool.ParseConfig.
unfoldable pub open_store :
    (String → Option String) → String → Connecting → List Act × Option String
open_store parse_config dsn c = elim (parse_config dsn) [
  | some e ↦ ([], some ("parse database url: " <> e))
  | none ↦ elim c.creating [
    | some e ↦ ([], some ("connect postgres: " <> e))
    | none ↦ postgres_opened c.pinging
  ]
]

abbrev pub failure_of : {A : Type 0} → Result String A → Option String
failure_of (ok a) = none
failure_of (err e) = some e

abbrev pub or_zero : Result String ℕ → ℕ
or_zero (ok n) = n
or_zero (err e) = 0

-- The number of checks that a loop over `all` of them made.
abbrev pub attempts_of : Waited → ℕ → ℕ
attempts_of (ready n) all = n
attempts_of (not_ready n e) all = n
attempts_of pending all = all

abbrev pub ended_of : {A : Type 0} → Waited → A → Ended A
ended_of (ready n) a = gave a
ended_of (not_ready n e) a = failed e
ended_of pending a = waiting

abbrev pub flatten : List (List Act) → List Act
flatten [] = []
flatten (xs ∷ rest) = xs ++ flatten rest

-- What a function of the Go library answers, and the texts of the startup timeout and of %v.
module _ (getenv : String → String) (timeout : String) where
  abbrev pub dsn : String
  dsn = env getenv "DATABASE_URL" "postgres://postgres@localhost:5432/jobsys?sslmode=disable"

  module _ (parse_config : String → Option String) where
    abbrev pub connect_check : Connecting → Check
    connect_check c = record {
      took = c.took;
      failure = (open_store parse_config dsn c).1;
      favours_timer = c.favours_timer;
    }

    -- In a context that ends at `over`.
    unfoldable pub open_db : ℕ → List Connecting → List Act × Ended (Unit {0})
    open_db over cs =
        let waited = wait_for "postgres" timeout over (map connect_check cs) in
        let made = take (attempts_of waited (length cs)) cs in
        (flatten (map (λ c. (open_store parse_config dsn c).0) made), ended_of waited tt)

  abbrev pub topic_check : List String → Asking → Check
  topic_check brokers a = record {
    took = a.took;
    failure = failure_of (check_topic a.dial a.read_partitions brokers);
    favours_timer = a.favours_timer;
  }

  -- The number that the variable of WaitForTopic holds after its n-th check.
  abbrev pub partitions_at : List String → List Asking → ℕ → ℕ
  partitions_at brokers [] n = 0
  partitions_at brokers (a ∷ xs) zero = 0
  partitions_at brokers (a ∷ xs) (suc zero) = or_zero (check_topic a.dial a.read_partitions brokers)
  partitions_at brokers (a ∷ xs) (suc (suc n)) = partitions_at brokers xs (suc n)

  unfoldable pub wait_for_topic : List String → ℕ → List Asking → Ended ℕ
  wait_for_topic brokers over xs =
      let waited =
        wait_for "kafka topic job-dispatch" timeout over (map (topic_check brokers) xs) in
      ended_of waited (partitions_at brokers xs (attempts_of waited (length xs)))
