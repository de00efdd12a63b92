-- ===== src/Main/Api.antt =====
-- main, migrate and serve of cmd/api/main.go.
use jobsys.Base.{◌*◌, String, Bool, false, Option, List, [], ◌∷◌, ok, err, text_eq, if◌then◌else◌}
use jobsys.Base.Int.{pos}
use jobsys.App.{env_duration}
use jobsys.App.Config.{Host, second}
use jobsys.App.Process.{
  Act, opens, closes, works, postgres, publisher, scheduler, listener, Ended, gave, failed, waiting,
  deferred, and_then, acting,
}
use jobsys.Main.Worker.{Surroundings, Texts, ended_by, opened_db, found_topic}
use jobsys.Store.Migrate.{Files, Postgres, Schema, Trip, migrate}

-- How serving ends: ListenAndServe fails, or a signal comes and Shutdown answers.
pub data Served : Type 0 where
  listen_failed : String → Served
  signalled : Option String → Served

module _ (host : Host) (texts : Texts) where
  -- The scheduler is waited for after a signal only.
  abbrev pub served : Served → List Act × Ended (Unit {0})
  served (listen_failed e) = (opens listener ∷ closes listener ∷ [], failed e)
  served (signalled e) =
      (opens listener ∷ works ∷ closes listener ∷ closes scheduler ∷ [], ended_by e)

  abbrev pub serving : Served → List Act × Ended (Unit {0})
  serving ending =
      acting (opens publisher)
        (deferred (closes publisher) (acting (opens scheduler) (served ending)))

  unfoldable pub serve : Served → Surroundings → List Act × Ended (Unit {0})
  serve ending s =
      elim (env_duration host.getenv host.parse_duration "SCHEDULER_INTERVAL" (pos (2 * second))) [
        | err e ↦ ([], failed e)
        | ok every ↦ and_then (opened_db host texts s) λ _.
            deferred (closes postgres) (and_then (found_topic host texts s) λ _. serving ending)
      ]

  module _ {S : Type 0} (pg : Postgres S) (files : Files) where
    abbrev pub schema_after : Trip → Schema S → Ended (Unit {0}) → Schema S
    schema_after trip schema (gave _) = (migrate pg files trip schema).0
    schema_after trip schema (failed e) = schema
    schema_after trip schema waiting = schema

    -- `api migrate`, and the schema that it leaves.
    unfoldable pub migrate_command :
        Trip → Surroundings → Schema S → (List Act × Ended (Unit {0})) × Schema S
    migrate_command trip s schema = (
      and_then (opened_db host texts s)
          λ _. deferred (closes postgres) (works ∷ [], ended_by (migrate pg files trip schema).1.1),
      schema_after trip schema (opened_db host texts s).1,
    )

    abbrev pub is_migrate : List String → Bool
    is_migrate [] = false
    is_migrate (a ∷ rest) = text_eq a "migrate"

    -- The arguments behind the program's name.
    unfoldable pub main :
        List String
        → Trip
        → Served
        → Surroundings
        → Schema S
        → (List Act × Ended (Unit {0})) × Schema S
    main args trip ending s schema =
        if is_migrate args then migrate_command trip s schema else (serve ending s, schema)
