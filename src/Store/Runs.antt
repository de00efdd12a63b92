-- ===== src/Store/Runs.antt =====
-- internal/store/runs.go: manual runs, and runs that could not be dispatched.
use jobsys.Base.{
  ℕ, ◌==◌, Bool, true, String, Option, none, some, List, [], ◌∷◌, ◌++◌, map, if◌then◌else◌, ok, err,
  Result, ◌&&◌, ◌||◌, ltb, leb, take, select, sort_with,
}
use jobsys.Base.Unique.{contains}
use jobsys.Store.Models.{
  Run, Db, StoreError, failed, manual, not_found, unique_violation, is_queued, new_run,
}
use jobsys.Store.Table.{find_run, update}
use jobsys.Store.Jobs.{or_not_found}

-- The key of job_runs_occurrence_uniq.
abbrev pub occurrence : Run → ℕ × ℕ
occurrence r = (r.job_id, r.scheduled_time)

abbrev pub occurrence_eq : ℕ × ℕ → ℕ × ℕ → Bool
occurrence_eq (j, t) (k, u) = j == k && t == u

abbrev pub has_run : ℕ → Db → Bool
has_run id db = contains ◌==◌ id (map (λ r. r.id) db.runs)

abbrev pub has_occurrence : ℕ × ℕ → Db → Bool
has_occurrence o db = contains occurrence_eq o (map occurrence db.runs)

abbrev pub has_job : ℕ → Db → Bool
has_job id db = contains ◌==◌ id (map (λ j. j.id) db.jobs)

unfoldable pub insert_run : Run → Db → Db
insert_run r db = record db { runs = db.runs ++ r ∷ [] }

-- INSERT INTO job_runs: the unique indexes, then the foreign key, whose violation the function
-- turns into ErrNotFound.
unfoldable pub create_manual_run : ℕ → ℕ → ℕ → Db → Result StoreError (Db × Run)
create_manual_run id job_id now db =
    let r = new_run id job_id now manual now in
    if has_run id db
    then err unique_violation
    else if has_occurrence (job_id, now) db
    then err unique_violation
    else if has_job job_id db
    then ok (insert_run r db, r)
    else err not_found

abbrev pub undispatched : ℕ → String → Run → Run
undispatched now reason r = record r {
  status = failed;
  error = some reason;
  finished_at = some now;
}

unfoldable pub fail_queued_run : ℕ → ℕ → String → Db → Db
fail_queued_run now run_id reason =
    update (λ r. r.id == run_id && is_queued r.status) (undispatched now reason)

unfoldable pub get_run : ℕ → Db → Result StoreError Run
get_run id db = or_not_found (find_run id db)

-- ORDER BY scheduled_time DESC, id.
abbrev pub newer_run : Run → Run → Bool
newer_run a b =
    ltb b.scheduled_time a.scheduled_time || (a.scheduled_time == b.scheduled_time && leb a.id b.id)

-- $1::uuid IS NULL OR job_id = $1::uuid.
abbrev pub of_job : Option ℕ → Run → Bool
of_job none r = true
of_job (some id) r = r.job_id == id

-- runListColumns leaves the output out.
abbrev pub without_output : Run → Run
without_output r = record r { output = none }

unfoldable pub list_runs : Option ℕ → ℕ → Db → List Run
list_runs job_id limit db =
    map without_output (take limit (sort_with newer_run (select (of_job job_id) db.runs)))
