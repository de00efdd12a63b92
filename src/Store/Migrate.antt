-- ===== src/Store/Migrate.antt =====
-- internal/store/migrate.go: Migrate and applyMigration, on the files of migrations/migrations.go. The
-- advisory lock makes callers take turns, so a call is one step. What a file's SQL does to the schema
-- is Postgres's; the files are a parameter.
use Prim.Native.Char.{code}
use jobsys.Base.{
  ℕ, String, Bool, true, false, ◌||◌, ◌&&◌, ◌==◌, ltb, Option, none, some, List, [], ◌∷◌, ◌++◌,
  Result, ok, err, ◌<>◌, text_eq, sort_with, if◌then◌else◌,
}
use jobsys.Base.Unique.{contains}
use jobsys.Worker.Env.{Fault, fine, refused, unanswered}
pub mod Names
pub mod Replays
pub mod Again
pub mod Tests

pub record Files : Type 0 where
  pub glob : Result String (List String)
  pub read_file : String → Result String String

-- Running a file's statements in a transaction, and the error of a key that is there already.
pub record Postgres (S : Type 0) : Type 0 where
  pub run_sql : String → S → Result String S
  pub duplicate_key : String

-- schema_migrations, oldest first, beside the schema.
pub record Schema (S : Type 0) : Type 0 where
  pub tables : S
  pub versions : List String

-- How the calls of one Migrate go: the errors of connecting, locking and creating the table, those of
-- asking about a file, and the transaction of each file.
pub record Trip : Type 0 where
  pub opening : Option String
  pub checking : String → Option String
  pub applying : String → Fault

-- sort.Strings: the order of the bytes, which is that of the code points.
unfoldable pub text_leb : String → String → Bool
text_leb String.[] t = true
text_leb (String.◌∷◌ c s) String.[] = false
text_leb (String.◌∷◌ c s) (String.◌∷◌ d t) =
    ltb (code c) (code d) || (code c == code d && text_leb s t)

abbrev pub is_recorded : String → List String → Bool
is_recorded = contains text_eq

module _ {S : Type 0} (pg : Postgres S) (files : Files) where
  -- The transaction's own outcome, where its connection holds.
  unfoldable pub commit : String → String → Schema S → Schema S × Option String
  commit name sql s = elim (pg.run_sql sql s.tables) [
    | err e ↦ (s, some e)
    | ok tables ↦
        if is_recorded name s.versions
        then (s, some pg.duplicate_key)
        else (record { tables = tables; versions = s.versions ++ name ∷ [] }, none)
  ]

  unfoldable pub apply_migration : Fault → String → String → Schema S → Schema S × Option String
  apply_migration fine name sql s = commit name sql s
  apply_migration (refused e) name sql s = (s, some e)
  apply_migration (unanswered e) name sql s = ((commit name sql s).0, some e)

  abbrev pub applied : String → Schema S × Option String → Schema S × Result String Bool
  applied name (s, none) = (s, ok true)
  applied name (s, some e) = (s, err ("apply " <> (name <> (": " <> e))))

  -- What one file takes: none where it is recorded already.
  unfoldable pub migrate_file : Trip → String → Schema S → Schema S × Result String Bool
  migrate_file trip name s = elim (trip.checking name) [
    | some e ↦ (s, err e)
    | none ↦ if is_recorded name s.versions then (s, ok false) else elim (files.read_file name) [
      | err e ↦ (s, err e)
      | ok sql ↦ applied name (apply_migration (trip.applying name) name sql s)
    ]
  ]

  unfoldable pub migrate_files :
      Trip → List String → Schema S → Schema S × (List String × Option String)
  migrate_files trip [] s = (s, ([], none))
  migrate_files trip (name ∷ names) s =
      let (s', answer) = migrate_file trip name s in
      let (s'', rest) = migrate_files trip names s' in
      elim answer [
        | err e ↦ (s', ([], some e))
        | ok true ↦ (s'', (name ∷ rest.0, rest.1))
        | ok false ↦ (s'', rest)
      ]

  abbrev pub migrate_named :
      Trip → Schema S → Result String (List String) → Schema S × (List String × Option String)
  migrate_named trip s (err e) = (s, ([], some e))
  migrate_named trip s (ok names) = migrate_files trip (sort_with text_leb names) s

  abbrev pub migrate_opened :
      Trip → Schema S → Option String → Schema S × (List String × Option String)
  migrate_opened trip s (some e) = (s, ([], some e))
  migrate_opened trip s none = migrate_named trip s files.glob

  -- The names that were applied, and the error, if any.
  unfoldable pub migrate : Trip → Schema S → Schema S × (List String × Option String)
  migrate trip s = migrate_opened trip s trip.opening

  -- One call after another, each with its own luck.
  unfoldable pub migrate_all : List Trip → Schema S → Schema S
  migrate_all [] s = s
  migrate_all (trip ∷ trips) s = migrate_all trips (migrate trip s).0
