-- ===== src/Worker/Heartbeat.antt =====
-- heartbeat of internal/worker/worker.go: the goroutine that reports an attempt alive until the job's
-- context ends. What others do before each tick of its timer is a list of calls.
use jobsys.Base.{
  ℕ, String, ◌<◌, ◌≡◌, Bool, true, false, ◌||◌, Option, none, some, List, [], ◌∷◌, ◌++◌, Result, ok,
  err, if◌then◌else◌,
}
use jobsys.Store.Models.{Run, Db}
use jobsys.Store.Table.{find_run}
use jobsys.Store.Worker.{heartbeat}
use jobsys.Store.History.{Call, exec_all}
use jobsys.Store.Histories.{IsValid}
use jobsys.Worker.Env.{Config, World, Fault, fine, call}
use jobsys.Worker.Execute.{Cause, lost_run}

-- A tick: what has happened since the last one, and how the call of the store goes.
pub record Tick : Type 0 where
  pub since : List Call
  pub beating : Fault
  pub now : ℕ

-- What the loop makes of an answer: only a refusal ends it.
abbrev pub go_on : World × Result String Bool → World × Option Cause → World × Option Cause
go_on (w, ok false) rest = (w, some lost_run)
go_on (w, ok true) rest = rest
go_on (w, err e) rest = rest

module _ (cfg : Config) (run : Run) where
  -- The loop, and the cause with which it cancels the job, if it does. The context ends with the list.
  unfoldable pub heartbeats : List Tick → World → World × Option Cause
  heartbeats [] w = (w, none)
  heartbeats (t ∷ ts) w =
      let before = record w { db = exec_all t.since w.db } in
      let out = call t.beating (heartbeat t.now run.id cfg.id run.attempt) before in
      go_on out (heartbeats ts out.0)

abbrev is_fine : Fault → Bool
is_fine fine = true
is_fine _ = false

-- Whether the database answers one of the calls.
abbrev pub is_answered : List Tick → Bool
is_answered [] = false
is_answered (t ∷ ts) = is_fine t.beating || is_answered ts

-- What others do up to the first answer.
abbrev pub until_answered : List Tick → List Call
until_answered [] = []
until_answered (t ∷ ts) =
    let rest = until_answered ts in t.since ++ (if is_fine t.beating then [] else rest)

module _ (cfg : Config) (run r : Run) (db : Db) (v : IsValid db) (found : find_run r.id db ≡ some r)
    (same : r.id ≡ run.id) (lost : run.attempt < r.attempt) where
  -- The answer of a call, if there is one, is a refusal.
  abbrev IsRefusal : Bool → Result String Bool → Type 0
  IsRefusal true a = a ≡ ok false
  IsRefusal false a = (e : String) × (a ≡ err e)
