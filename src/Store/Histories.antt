-- ===== src/Store/Histories.antt =====
-- Theorems about every history of calls, from an empty database or from a well-formed one.
use jobsys.Base.{◌≡◌, ◌≤◌, sym, ◌∙◌, true, some, List, arith, All, ◌==◌}
use jobsys.Base.Unique.{Distinct}
use jobsys.Store.Models.{Run, Db, running}
use jobsys.Store.Rows.{IsShaped, is_final}
use jobsys.Store.Phase.{phase, executing, Moves-one_owner, Moves-attempt, attempt_of}
use jobsys.Store.Evolve.{
  Evolves-ids, Evolves-occurrences, Evolves-IsShaped, Evolves-find, Became, ids, occurrences,
}
use jobsys.Store.Table.{find_run}
use jobsys.Store.Runs.{occurrence_eq}
use jobsys.Store.History.{Call, exec_all, empty_db}
use jobsys.Store.Lifecycle.{exec_all-Evolves}

-- What the tables say together: the primary key, the key of an occurrence, and each row's columns.
pub record IsValid (db : Db) : Type 0 where
  pub keyed : Distinct ◌==◌ (ids db.runs)
  pub occurs_once : Distinct occurrence_eq (occurrences db.runs)
  pub rows_shaped : All IsShaped db.runs

-- Every history of calls keeps a well-formed database well formed: no two runs share an id or an
-- occurrence (job and scheduled time), and each row's columns fit its status.
pub exec_all-IsValid : (cs : List Call) (db : Db) → IsValid db → IsValid (exec_all cs db)
exec_all-IsValid cs db v =
    let e = exec_all-Evolves cs db v.keyed in
    record {
      keyed = Evolves-ids e v.keyed;
      occurs_once = Evolves-occurrences e v.occurs_once;
      rows_shaped = Evolves-IsShaped e v.rows_shaped;
    }

pub empty_db-IsValid : IsValid empty_db
empty_db-IsValid = record { keyed = tt; occurs_once = tt; rows_shaped = tt }

module _ (cs : List Call) (db : Db) (v : IsValid db) (r : Run)
    (found : find_run r.id db ≡ some r) where
  -- A run that is in the table is in it after any history of calls, as the same occurrence of the
  -- same job, at the same attempt or a later one.
  pub exec_all-keeps :
      (s : Run) × (find_run r.id (exec_all cs db) ≡ some s)
      × (s.job_id ≡ r.job_id)
      × (s.scheduled_time ≡ r.scheduled_time)
      × (r.attempt ≤ s.attempt)
  unfolding find_run
  exec_all-keeps =
      let (s, found', b) = Evolves-find r.id r (exec_all-Evolves cs db v.keyed) found in
      (s, found', b.same_job, b.same_time, attempts r s (Moves-attempt _ _ b.moves))
    where
      attempts : (r s : Run) → attempt_of (phase r) ≤ attempt_of (phase s) → r.attempt ≤ s.attempt
      attempts r s h = unfold phase in ground arith

  -- A run that has succeeded, failed or been cancelled keeps its whole row, result, error and times
  -- included, whatever is called afterwards.
  pub final_run_frozen : is_final r.status ≡ true → find_run r.id (exec_all cs db) ≡ some r
  unfolding find_run
  final_run_frozen final =
      let (s, found', b) = Evolves-find r.id r (exec_all-Evolves cs db v.keyed) found in
      rw (b.frozen final) at found'

  later : (s : Run) → find_run r.id (exec_all cs db) ≡ some s → Became r s
  unfolding find_run
  later s found' =
      let (t, f, b) = Evolves-find r.id r (exec_all-Evolves cs db v.keyed) found in
      let e : t ≡ s = ground arith in rw e at b

  -- Each attempt of a run belongs to one worker: whoever is seen to execute it now and whoever is
  -- seen to execute it after any further calls are the same.
  pub attempt_one_owner :
      (s : Run)
      → find_run r.id (exec_all cs db) ≡ some s
      → r.status ≡ running
      → s.status ≡ running
      → r.attempt ≡ s.attempt
      → r.worker_id ≡ s.worker_id
  attempt_one_owner s found' h k e =
      Moves-one_owner r.attempt r.worker_id s.worker_id (phase r) (phase s) (later s found').moves
        (runs r h) (runs s k ∙ sym (same e))
    where
      runs : (r : Run) → r.status ≡ running → phase r ≡ executing r.attempt r.worker_id
      runs r h = unfold phase in ground arith

      same :
          r.attempt ≡ s.attempt → executing r.attempt s.worker_id ≡ executing s.attempt s.worker_id
      same e = cc
