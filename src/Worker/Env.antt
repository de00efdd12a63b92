-- ===== src/Worker/Env.antt =====
-- What a worker acts on, its settings, and how a call of the database or the broker can go.
use jobsys.Base.{ℕ, String, Bool, true, false, List, [], ◌∷◌, ◌++◌, Result, ok, err}
use jobsys.Base.Int.{ℤ}
use jobsys.Store.Models.{Db}

-- Durations that go to Postgres are not negative.
pub record Config : Type 0 where
  pub id : String
  pub concurrency : ℕ
  pub stale_after : ℕ
  pub sweep_after : ℕ
  pub retry_base_delay : ℤ
  pub retry_max_delay : ℤ
  pub output_dir : String

-- A run announced on the dispatch topic.
pub record Notice : Type 0 where
  pub run_id : ℕ
  pub job_id : ℕ
  pub job_type : String
  pub attempt : ℕ

-- The tables, what has been published, and the output files.
pub record World : Type 0 where
  pub db : Db
  pub topic : List Notice
  pub files : List (String × String)

-- A call goes through, fails before it has an effect, or fails after it: the answer is lost.
pub data Fault : Type 0 where
  fine : Fault
  refused : String → Fault
  unanswered : String → Fault

unfoldable pub call {ℓ} : {A : Type ℓ} → Fault → (Db → Db × A) → World → World × Result String A
call fine f w = let (db, a) = f w.db in (record w { db = db }, ok a)
call (refused e) f w = (w, err e)
call (unanswered e) f w = (record w { db = (f w.db).0 }, err e)

-- Dispatcher.Dispatch; the answer says whether the broker acknowledged.
unfoldable pub dispatch : Fault → Notice → World → World × Bool
dispatch fine n w = (record w { topic = w.topic ++ n ∷ [] }, true)
dispatch (refused e) n w = (w, false)
dispatch (unanswered e) n w = (record w { topic = w.topic ++ n ∷ [] }, false)
