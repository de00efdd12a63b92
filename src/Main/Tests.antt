-- ===== src/Main/Tests.antt =====
-- Starts of the commands at concrete values.
use jobsys.Base.{
  ℕ, zero, suc, ◌≡◌, ◌⊎◌, refl, false, String, Option, none, some, List, [], ◌∷◌, ◌++◌, ok, arith,
  sort_with,
}
use jobsys.App.{wait_for, wait_loop}
use jobsys.App.Config.{Settings, load_config}
use jobsys.App.Tests.{bare}
use jobsys.App.Process.{held, exit_status, and_then, deferred}
use jobsys.App.Startup.{Connecting, Asking, open_db, open_store}
use jobsys.Main.Worker.{Surroundings, Texts, run}
use jobsys.Main.Api.{signalled, main, migrate_command}
use jobsys.Main.Outcomes.{run-closes, main-closes, migrate_command-missing}
use jobsys.Store.Migrate.{text_leb, migrate, migrate_files, migrate_file, apply_migration, commit}
use jobsys.Store.Migrate.Names.{missing}
use jobsys.Store.Migrate.Tests.{two_files, recording, calm, blank}

abbrev connected : Connecting
connected = record { took = 5; creating = none; pinging = none; favours_timer = false }

abbrev answered : Asking
answered = record { took = 5; dial = λ b. none; read_partitions = λ b. ok 3; favours_timer = false }

abbrev times : {A : Type 0} → ℕ → A → List A
times zero a = []
times (suc n) a = a ∷ times n a

-- Postgres answers the second attempt, Kafka the first.
abbrev calm_start : Surroundings
calm_start = record {
  db_over = 180000;
  topic_over = 180000;
  connecting = record connected { pinging = some "starting up" } ∷ times 40 connected;
  asking = times 40 answered;
}

abbrev plain_texts : Texts
plain_texts = record { parse_config = λ dsn. none; trim_space = λ s. s; timeout = "3m0s" }

abbrev no_error : Settings → Option String
no_error settings = none

run-closes_example :
    let out = run bare plain_texts no_error calm_start in
    (held out.0 [] ≡ some [])
    × ((exit_status out.1 ≡ some 1)
        ⊎ ((exit_status out.1 ≡ some 0)
            × (settings : Settings) × (load_config bare ≡ ok settings)
            × (no_error settings ≡ none)))
run-closes_example =
    run-closes bare plain_texts calm_start (omega arith) (omega arith) (omega arith) (omega arith)
      no_error

main-closes_example :
    let out =
      (main bare plain_texts recording two_files [] calm (signalled none) calm_start blank).0 in
    (held out.0 [] ≡ some []) × ((exit_status out.1 ≡ some 0) ⊎ (exit_status out.1 ≡ some 1))
main-closes_example =
    main-closes bare plain_texts calm_start (omega arith) (omega arith) (omega arith) (omega arith)
      recording two_files calm blank [] none

migrate_command-missing_example :
    (migrate_command bare plain_texts recording two_files calm calm_start blank).1.versions
    ≡ [] ++ missing [] (sort_with text_leb ("002.sql" ∷ "001.sql" ∷ []))
unfolding migrate_command and_then deferred open_db open_store wait_for wait_loop migrate
    migrate_files migrate_file apply_migration commit text_leb sort_with
migrate_command-missing_example =
    migrate_command-missing bare plain_texts calm_start (omega arith) (omega arith) (omega arith)
      (omega arith) recording two_files calm blank ("002.sql" ∷ "001.sql" ∷ []) refl
      (ground arith, (ground arith, tt)) refl
