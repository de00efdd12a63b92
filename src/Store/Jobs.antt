-- ===== src/Store/Jobs.antt =====
-- internal/store/jobs.go.
use jobsys.Base.{
  ℕ, ◌==◌, Bool, true, Option, none, some, List, [], ◌∷◌, ◌++◌, map, take, sort_with, if◌then◌else◌,
  leb, ltb, ok, err, Result, ◌&&◌, ◌||◌,
}
use jobsys.Base.Unique.{contains}
use jobsys.Store.Models.{Job, NewJob, Db, StoreError, not_found, unique_violation, check_violation}
use jobsys.Store.Table.{find_job}

unfoldable pub created : ℕ → ℕ → NewJob → Job
created id now n = record {
  id = id;
  name = n.name;
  type = n.type;
  payload = n.payload;
  cron_expr = n.cron_expr;
  timezone = n.timezone;
  next_run_at = n.next_run_at;
  enabled = true;
  max_retries = n.max_retries;
  timeout_sec = n.timeout_sec;
  created_at = now;
  updated_at = now;
}

-- The primary key of jobs, then its CHECK (timeout_sec > 0); max_retries >= 0 holds of every ℕ.
unfoldable pub create_job : ℕ → ℕ → NewJob → Db → Result StoreError (Db × Job)
unfolding created
create_job id now n db =
    if n.timeout_sec == 0
    then err check_violation
    else if contains ◌==◌ id (map (λ j. j.id) db.jobs)
    then err unique_violation
    else ok (record db { jobs = db.jobs ++ created id now n ∷ [] }, created id now n)

abbrev pub or_not_found {ℓ} : {A : Type ℓ} → Option A → Result StoreError A
or_not_found none = err not_found
or_not_found (some a) = ok a

abbrev pub set_enabled : ℕ → Bool → Option ℕ → Job → Job
set_enabled now enabled next j = record j {
  enabled = enabled;
  next_run_at = next;
  updated_at = now;
}

-- UPDATE jobs SET f WHERE id = $1.
unfoldable pub update_job : ℕ → (Job → Job) → Db → Db
update_job id f db = record db { jobs = map (λ j. if j.id == id then f j else j) db.jobs }

unfoldable pub set_job_enabled : ℕ → ℕ → Bool → Option ℕ → Db → Db × Result StoreError Job
unfolding update_job
set_job_enabled now id enabled next db =
    let after = update_job id (set_enabled now enabled next) db in
    (after, or_not_found (find_job id after))

unfoldable pub get_job : ℕ → Db → Result StoreError Job
get_job id db = or_not_found (find_job id db)

-- ORDER BY created_at DESC, id.
abbrev pub newer_job : Job → Job → Bool
newer_job a b = ltb b.created_at a.created_at || (a.created_at == b.created_at && leb a.id b.id)

unfoldable pub list_jobs : ℕ → Db → List Job
list_jobs limit db = take limit (sort_with newer_job db.jobs)
