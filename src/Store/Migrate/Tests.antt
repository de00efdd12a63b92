-- ===== src/Store/Migrate/Tests.antt =====
-- Two files, on a schema that is the list of what has run.
use jobsys.Base.{
  ◌≡◌, refl, String, none, List, [], ◌∷◌, ◌++◌, ok, text_eq, sort_with, insert_by, arith,
}
use jobsys.Base.Unique.{Distinct}
use jobsys.Worker.Env.{fine, unanswered}
use jobsys.Store.Migrate.{
  Files, Postgres, Schema, Trip, migrate, migrate_files, migrate_file, apply_migration, commit,
  migrate_all, text_leb,
}
use jobsys.Store.Migrate.Names.{missing}
use jobsys.Store.Migrate.Replays.{replay, migrate_all-IsReplayed}
use jobsys.Store.Migrate.Again.{migrate-migrate}

abbrev pub two_files : Files
two_files = record { glob = ok ("002.sql" ∷ "001.sql" ∷ []); read_file = λ name. ok name }

abbrev pub recording : Postgres (List String)
recording = record { run_sql = λ sql ran. ok (ran ++ sql ∷ []); duplicate_key = "duplicate key" }

abbrev pub calm : Trip
calm = record { opening = none; checking = λ name. none; applying = λ name. fine }

-- The answer of a commit gets lost.
abbrev shaky : Trip
shaky = record { opening = none; checking = λ name. none; applying = λ name. unanswered "EOF" }

abbrev pub blank : Schema (List String)
blank = record { tables = []; versions = [] }

abbrev sorted : List String
sorted = "001.sql" ∷ "002.sql" ∷ []

shaky_then_calm :
    migrate_all recording two_files (shaky ∷ calm ∷ []) blank
    ≡ record { tables = sorted; versions = sorted }
unfolding migrate_all migrate migrate_files migrate_file apply_migration commit text_leb sort_with
    insert_by
shaky_then_calm = refl

migrate_all-IsReplayed_example :
    let s = migrate_all recording two_files (shaky ∷ calm ∷ []) blank in
    Distinct text_eq s.versions × (replay recording two_files s.versions [] ≡ ok s.tables)
migrate_all-IsReplayed_example = migrate_all-IsReplayed recording two_files (shaky ∷ calm ∷ []) []

migrate-migrate_example :
    let m = migrate recording two_files calm blank in
    (m.1.0 ≡ missing [] (sort_with text_leb ("002.sql" ∷ "001.sql" ∷ [])))
    × ((m.0.versions ≡ [] ++ m.1.0)
        × (((migrate recording two_files shaky m.0).0 ≡ m.0)
            × ((migrate recording two_files shaky m.0).1.0 ≡ [])))
unfolding migrate migrate_files migrate_file apply_migration commit text_leb sort_with insert_by
migrate-migrate_example =
    migrate-migrate recording two_files calm shaky ("002.sql" ∷ "001.sql" ∷ []) blank refl
      (ground arith, (ground arith, tt)) refl
