-- ===== src/Store/Table.antt =====
-- How the statements of internal/store read and write job_runs: an UPDATE on one table, and an
-- UPDATE on the batch of rows that a locking SELECT joined with their jobs.
use jobsys.Base.{
  ℕ, ◌==◌, Bool, Option, none, some, List, [], ◌∷◌, map, select, find?, take, sort_by,
  if◌then◌else◌, not, ◌&&◌,
}
use jobsys.Store.Models.{Job, Run, Db, Redispatch}

-- UPDATE job_runs SET f WHERE p.
unfoldable pub update : (Run → Bool) → (Run → Run) → Db → Db
update p f db = record db { runs = map (λ r. if p r then f r else r) db.runs }

-- The rows that UPDATE … RETURNING hands back.
unfoldable pub updated : (Run → Bool) → (Run → Run) → Db → List Run
updated p f db = map f (select p db.runs)

unfoldable pub find_job : ℕ → Db → Option Job
find_job id db = find? (λ j. j.id == id) db.jobs

unfoldable pub find_run : ℕ → Db → Option Run
find_run id db = find? (λ r. r.id == id) db.runs

-- FROM job_runs r JOIN jobs j ON j.id = r.job_id.
abbrev pub with_job : Run → Option Job → List (Run × Job) → List (Run × Job)
with_job r none rest = rest
with_job r (some j) rest = (r, j) ∷ rest

unfoldable pub join_jobs : Db → List Run → List (Run × Job)
join_jobs db [] = []
join_jobs db (r ∷ rs) = with_job r (find_job r.job_id db) (join_jobs db rs)

-- SELECT … WHERE p ORDER BY key LIMIT limit FOR UPDATE OF r SKIP LOCKED: rows that another
-- transaction holds are passed over.
unfoldable pub lock_batch : (ℕ → Bool) → (Run → Bool) → (Run → ℕ) → ℕ → Db → List (Run × Job)
lock_batch locked p key limit db = take limit (
    sort_by (λ rj. key rj.0) (select (λ rj. p rj.0 && not (locked rj.0.id)) (join_jobs db db.runs)))

-- The batch's entry for a row, if it has one: WHERE r.id = d.id.
unfoldable pub in_batch : List (Run × Job) → ℕ → Option (Run × Job)
in_batch batch id = find? (λ rj. rj.0.id == id) batch

abbrev pub apply_entry : (Job → Run → Run) → Run → Option (Run × Job) → Run
apply_entry f r none = r
apply_entry f r (some rj) = f rj.1 r

-- UPDATE job_runs r SET f FROM batch d WHERE r.id = d.id.
unfoldable pub update_batch : List (Run × Job) → (Job → Run → Run) → Db → Db
update_batch batch f db = record db {
  runs = map (λ r. apply_entry f r (in_batch batch r.id)) db.runs;
}

-- RETURNING r.id, r.job_id, j.type, r.status, r.attempt.
abbrev pub redispatch : Job → Run → Redispatch
redispatch j r = record {
  run_id = r.id;
  job_id = r.job_id;
  job_type = j.type;
  status = r.status;
  attempt = r.attempt;
}

-- The returned rows, in the batch's order (Postgres promises none).
unfoldable pub returning : List (Run × Job) → (Job → Run → Run) → List Redispatch
returning batch f = map (λ rj. redispatch rj.1 (f rj.1 rj.0)) batch
