-- ===== src/Worker/Handling.antt =====
-- The statements of a maintenance pass, one run at a time: the row each leaves, and its announcement.
use mathlib.Core.List.{Memᴰ}
use jobsys.Base.{
  ◌≤◌, ◌≡◌, refl, ap, ◌∙◌, Bool, true, false, some, List, [], ◌∷◌, arith, ◌==◌, ◌&&◌, not,
  if◌then◌else◌, length, length-map,
}
use jobsys.Base.Columns.{All-find?}
use jobsys.Store.Models.{Run, Job, Db, Redispatch}
use jobsys.Store.Table.{find_run, find_job, redispatch, update_batch}
use jobsys.Store.Rows.{IsShaped}
use jobsys.Store.Worker.{is_stale, reaped, is_forgotten, requeued_now, reap_stale, sweep_queued}
use jobsys.Store.Retry.{is_due_retry, dispatched_retry, due_retries}
use jobsys.Store.Histories.{IsValid, exec_all-IsValid}
use jobsys.Store.History.{Call, exec, exec_all, reaps, retries, sweeps}
use jobsys.Store.Recovery.{
  reap_stale_lem, reap_stale-Memᴰ, sweep_queued_lem, sweep_queued-Memᴰ, due_retries_lem,
  due_retries-Memᴰ,
}
use jobsys.Worker.Env.{Config, World, Notice, Fault, fine, call}
use jobsys.Worker.Announced.{redispatch_all-kept, redispatch_all-told}
use jobsys.Worker.Settles.{call-fine}
use jobsys.Worker.Pool.Worlds.{redispatch_all-db}
use jobsys.Worker.Maintain.{
  Pass, redispatch_all, maintenance_batch, notice_of, rows_or_none, is_failed,
}

-- The run and its job are in a well-formed database whose runs fit into one batch.
pub record Holds (j : Job) (r : Run) (db : Db) : Type 0 where
  pub valid : IsValid db
  pub found : find_run r.id db ≡ some r
  pub job : find_job r.job_id db ≡ some j
  pub room : length db.runs ≤ maintenance_batch

pub Holds-IsShaped : (j : Job) (r : Run) (db : Db) → Holds j r db → IsShaped r
unfolding find_run
Holds-IsShaped j r db h =
    All-find? IsShaped (λ x. x.id == r.id) db.runs r h.found h.valid.rows_shaped

-- A statement of the pass on the run: it makes `s` of it, keeps the jobs and the number of runs, and
-- returns the run where `handled` says so.
pub record Handles (j : Job) (r s : Run) (handled : Bool) (c : Call) (db : Db)
    (returned : List Redispatch) : Type 0 where
  same_id : s.id ≡ r.id
  same_job : s.job_id ≡ r.job_id
  row : find_run r.id (exec c db) ≡ some s
  jobs : (exec c db).jobs ≡ db.jobs
  runs : length (exec c db).runs ≡ length db.runs
  lists : handled ≡ true → Memᴰ (redispatch j s) returned

module _ (j : Job) (r s : Run) (handled : Bool) (c : Call) (db : Db) (rs : List Redispatch)
    (h : Holds j r db) (k : Handles j r s handled c db rs) where
  Holds-exec : Holds j s (exec c db)
  unfolding exec_all find_job
  Holds-exec = record {
    valid = exec_all-IsValid (c ∷ []) db h.valid;
    found = ap (λ i. find_run i (exec c db)) k.same_id ∙ k.row;
    job = rw (k.jobs, k.same_job) h.job;
    room = rw k.runs h.room;
  }

-- What a pass makes of the run: the row that each of its statements leaves.
module _ (cfg : Config) (pass : Pass) (j : Job) where
  abbrev pub is_reaped : Run → Bool
  is_reaped r = is_stale pass.reap_at cfg.stale_after r && not (pass.locked r.id)

  abbrev pub is_retried : Run → Bool
  is_retried r = is_due_retry pass.retry_at r && not (pass.locked r.id)

  abbrev pub is_swept : Run → Bool
  is_swept r = is_forgotten pass.sweep_at cfg.sweep_after r && not (pass.locked r.id)

  abbrev pub reaped_row : Run → Run
  reaped_row r = if is_reaped r then reaped pass.reap_at j r else r

  abbrev pub retried_row : Run → Run
  retried_row r = if is_retried r then dispatched_retry pass.retry_at j r else r

  abbrev pub swept_row : Run → Run
  swept_row r = if is_swept r then requeued_now pass.sweep_at j r else r

  abbrev pub recovered : Run → Run
  recovered r = swept_row (retried_row (reaped_row r))

  module _ (r : Run) (db : Db) (h : Holds j r db) where
    pub reap-Handles :
        Handles j r
          (reaped_row r)
          (is_reaped r)
          (reaps pass.reap_at pass.locked cfg.stale_after maintenance_batch)
          db
          (reap_stale pass.reap_at pass.locked cfg.stale_after maintenance_batch db).1
    unfolding exec
    reap-Handles = record {
      same_id = ground arith;
      same_job = ground arith;
      row =
          reap_stale_lem db h.valid.keyed pass.locked maintenance_batch r j h.found h.job h.room
            pass.reap_at cfg.stale_after;
      jobs = unfold reap_stale update_batch in refl;
      runs = unfold reap_stale update_batch in length-map _ db.runs;
      lists = λ t. rw t (
          reap_stale-Memᴰ db h.valid.keyed pass.locked maintenance_batch r j h.found h.job h.room
            pass.reap_at cfg.stale_after t);
    }

    pub retry-Handles :
        Handles j r
          (retried_row r)
          (is_retried r)
          (retries pass.retry_at pass.locked maintenance_batch)
          db
          (due_retries pass.retry_at pass.locked maintenance_batch db).1
    unfolding exec
    retry-Handles = record {
      same_id = ground arith;
      same_job = ground arith;
      row =
          due_retries_lem db h.valid.keyed pass.locked maintenance_batch r j h.found h.job h.room
            pass.retry_at;
      jobs = unfold due_retries update_batch in refl;
      runs = unfold due_retries update_batch in length-map _ db.runs;
      lists = λ t. rw t (
          due_retries-Memᴰ db h.valid.keyed pass.locked maintenance_batch r j h.found h.job h.room
            pass.retry_at t);
    }

    pub sweep-Handles :
        Handles j r
          (swept_row r)
          (is_swept r)
          (sweeps pass.sweep_at pass.locked cfg.sweep_after maintenance_batch)
          db
          (sweep_queued pass.sweep_at pass.locked cfg.sweep_after maintenance_batch db).1
    unfolding exec
    sweep-Handles = record {
      same_id = ground arith;
      same_job = ground arith;
      row =
          sweep_queued_lem db h.valid.keyed pass.locked maintenance_batch r j h.found h.job h.room
            pass.sweep_at cfg.sweep_after;
      jobs = unfold sweep_queued update_batch in refl;
      runs = unfold sweep_queued update_batch in length-map _ db.runs;
      lists = λ t. rw t (
          sweep_queued-Memᴰ db h.valid.keyed pass.locked maintenance_batch r j h.found h.job h.room
            pass.sweep_at cfg.sweep_after t);
    }

-- What a part of the pass makes of the run, and what it puts on the topic.
pub record Passes (pass : Pass) (j : Job) (s : Run) (handled : Bool) (w w' : World) : Type 0 where
  pub holds : Holds j s w'.db
  pub keeps : (n : Notice) → Memᴰ n w.topic → Memᴰ n w'.topic
  pub announces :
      pass.dispatching s.id ≡ fine
      → handled ≡ true
      → is_failed s.status ≡ false
      → Memᴰ (notice_of (redispatch j s)) w'.topic

-- A statement of the pass that goes through, and the announcements of its rows.
module _ (pass : Pass) (j : Job) (r s : Run) (handled : Bool) (c : Call)
    (f : Db → Db × List Redispatch) (keep : List Redispatch → List Redispatch) (fault : Fault)
    (w : World) (working : fault ≡ fine) (same : (f w.db).0 ≡ exec c w.db)
    (k : Handles j r s handled c w.db (f w.db).1) where
  abbrev after : World
  after = let a = rows_or_none (call fault f w) in redispatch_all pass.dispatching (keep a.1) a.0

  abbrev told : World
  told = redispatch_all pass.dispatching (keep (f w.db).1) (record w { db = (f w.db).0 })

  after-told : after ≡ told
  after-told =
      ap (λ x. let a = rows_or_none x in redispatch_all pass.dispatching (keep a.1) a.0)
        (call-fine f w fault working)

  pub after-Passes :
      ((rs : List Redispatch)
        → is_failed s.status ≡ false
        → Memᴰ (redispatch j s) rs
        → Memᴰ (redispatch j s) (keep rs))
      → Holds j r w.db
      → Passes pass j s handled w after
  after-Passes kept h =
      let w' = record w { db = (f w.db).0 } in
      let rs = keep (f w.db).1 in
      rw after-told (record {
        holds = rw (redispatch_all-db, same) (Holds-exec j r s handled c w.db (f w.db).1 h k);
        keeps = λ n m. redispatch_all-kept n pass.dispatching rs w' m;
        announces = λ heard t unfailed.
            redispatch_all-told pass.dispatching (redispatch j s) rs w' heard
              (kept (f w.db).1 unfailed (k.lists t));
      })
