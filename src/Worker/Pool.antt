-- ===== src/Worker/Pool.antt =====
-- Run and consume of internal/worker/worker.go as steps: the consume loop, the goroutines that
-- execute, the maintenance pass, and what other processes do in between. The context's end, the
-- broker's answers and the clock may come in any order with them.
use jobsys.Base.{
  ℕ, suc, ◌+◌, ◌<◌, ◌≡◌, String, Bool, true, false, Option, none, some, List, [], ◌∷◌, ◌++◌, Result,
  ok, err, ◌<>◌, if◌then◌else◌,
}
use jobsys.Queue.{Dispatch}
use jobsys.Store.Models.{Run, Job, Db, StoreError}
use jobsys.Store.Jobs.{get_job}
use jobsys.Store.History.{Call, exec}
use jobsys.Worker.Env.{Config, World, Fault, call}
use jobsys.Worker.Execute.{Env, shutdown, claim, fail, conclude}
use jobsys.Worker.Maintain.{Pass, maintain}
pub mod Worlds
pub mod Begun
pub mod Slots
pub mod Once
mod Tests

-- Where the consume loop stands: at its select, in FetchMessage, behind claim, or behind its return,
-- where Run waits for the jobs; and the end of Run.
pub data Stage : Type 0 where
  selecting : Stage
  fetching : Stage
  answered : Option Run → Stage
  draining : Option String → Stage
  returned : Option String → Stage

abbrev pub is_returned : Stage → Bool
is_returned (returned e) = true
is_returned _ = false

-- A goroutine of execute: before GetJob has answered, and while the job runs.
pub data Task : Type 0 where
  loading : Run → Task
  working : Run → Job → Task

abbrev pub task_run : Task → Run
task_run (loading r) = r
task_run (working r j) = r

pub record Pool : Type 0 where
  pub stage : Stage
  -- What the channel of slots holds.
  pub slots : ℕ
  pub tasks : List Task
  pub world : World
  -- The context of Run is over, and the context of the jobs is, with errShutdown.
  pub cancelled : Bool
  pub handing_back : Bool
  -- The runs that the worker has logged as claimed.
  pub claimed_runs : List Run

abbrev pub start : World → Pool
start w = record {
  stage = selecting;
  slots = 0;
  tasks = [];
  world = w;
  cancelled = false;
  handing_back = false;
  claimed_runs = [];
}

abbrev pub noted : Option Run → List Run → List Run
noted none rs = rs
noted (some r) rs = r ∷ rs

abbrev pub fetch_error : Bool → String → Option String
fetch_error over e = if over then none else some ("fetch dispatch message: " <> e)

module _ (cfg : Config) (path : String → ℕ → String) (message : StoreError → String)
    (unmarshal : String → Result String Dispatch) (parse_uuid : String → Option ℕ) where
  -- The world and the answer of a claim.
  abbrev pub claiming : Fault → ℕ → String → Pool → World × Option Run
  claiming fault now value p = claim cfg unmarshal parse_uuid fault now value p.world

  abbrev pub load : Fault → Run → Pool → World × Result String (Result StoreError Job)
  load fault r p = call fault (λ db. (db, get_job r.job_id db)) p.world

  -- Why a job could not be loaded.
  abbrev pub load_error : Result String (Result StoreError Job) → Option String
  load_error (err e) = some e
  load_error (ok (err e)) = some (message e)
  load_error (ok (ok j)) = none

  pub data Step (p : Pool) : Pool → Type 0 where
    cancels : Step p (record p { cancelled = true })
    takes_slot :
        p.stage ≡ selecting
        → p.slots < cfg.concurrency
        → Step p (record p { stage = fetching; slots = p.slots + 1 })
    stops : p.stage ≡ selecting → p.cancelled ≡ true → Step p (record p { stage = draining none })
    cannot_fetch :
        (e : String) (n : ℕ)
        → p.stage ≡ fetching
        → p.slots ≡ suc n
        → Step p (record p { stage = draining (fetch_error p.cancelled e); slots = n })
    fetches :
        (fault : Fault) (now : ℕ) (value : String)
        → p.stage ≡ fetching
        → Step p (record p {
          stage = answered (claiming fault now value p).1;
          world = (claiming fault now value p).0;
          claimed_runs = noted (claiming fault now value p).1 p.claimed_runs;
        })
    skips :
        (n : ℕ)
        → p.stage ≡ answered none
        → p.slots ≡ suc n
        → Step p (record p { stage = selecting; slots = n })
    starts :
        (r : Run)
        → p.stage ≡ answered (some r)
        → Step p (record p { stage = selecting; tasks = loading r ∷ p.tasks })
    loads :
        (r : Run) (j : Job) (before after : List Task) (fault : Fault)
        → p.tasks ≡ before ++ loading r ∷ after
        → (load fault r p).1 ≡ ok (ok j)
        → Step p (record p { tasks = before ++ working r j ∷ after; world = (load fault r p).0 })
    cannot_load :
        (r : Run) (e : String) (before after : List Task) (n : ℕ) (env : Env)
        → p.tasks ≡ before ++ loading r ∷ after
        → p.slots ≡ suc n
        → load_error (load env.loading r p).1 ≡ some e
        → Step p (record p {
          tasks = before ++ after;
          slots = n;
          world = fail cfg env r ("load job: " <> e) (load env.loading r p).0;
        })
    -- The job's context says errShutdown only once stopJobs has been called.
    ends :
        (r : Run) (j : Job) (before after : List Task) (n : ℕ) (env : Env)
        (outcome : Result String String)
        → p.tasks ≡ before ++ working r j ∷ after
        → p.slots ≡ suc n
        → (env.cause ≡ some shutdown → p.handing_back ≡ true)
        → Step p (record p {
          tasks = before ++ after;
          slots = n;
          world = conclude cfg path message env r j outcome p.world;
        })
    -- The grace period is over.
    hands_back :
        (e : Option String) → p.stage ≡ draining e → Step p (record p { handing_back = true })
    returns :
        (e : Option String)
        → p.stage ≡ draining e
        → p.tasks ≡ []
        → Step p (record p { stage = returned e })
    -- Run waits for maintain before it returns.
    maintains :
        (pass : Pass)
        → is_returned p.stage ≡ false
        → Step p (record p { world = maintain cfg pass p.world })
    -- A heartbeat or a log batch of a task, or a call of another process.
    others : (c : Call) → Step p (record p { world = record p.world { db = exec c p.world.db } })

  pub data Reachable (p : Pool) : Pool → Type 0 where
    here : Reachable p p
    next : {q r : Pool} → Reachable p q → Step q r → Reachable p r
