-- ===== src/Worker/Pool/Once.antt =====
-- A worker never executes an attempt twice.
use mathlib.Core.List.{map-append}
use jobsys.Base.{
  ℕ, ◌<◌, ◌≡◌, refl, sym, ap, ◌∙◌, inl, inr, String, false, Option, none, some, List, [], ◌∷◌, ◌++◌,
  map, Result, Bool-cases, All, All-split, All-append, arith,
}
use jobsys.Base.Unique.{Distinct-removed, contains, Distinct}
use jobsys.Queue.{Dispatch}
use jobsys.Store.Models.{Run, Db, StoreError}
use jobsys.Store.Phase.{phase, waiting, executing, IsOver}
use jobsys.Store.Table.{find_run}
use jobsys.Store.Histories.{IsValid, exec_all-IsValid}
use jobsys.Worker.Env.{Config, World, Fault}
use jobsys.Worker.Pool.{
  Stage, answered, Task, task_run, Pool, start, noted, Step, cancels, takes_slot, stops,
  cannot_fetch, fetches, skips, starts, loads, cannot_load, ends, hands_back, returns, maintains,
  others, Reachable, here, next, claiming, load,
}
use jobsys.Store.Follows.{Follows, Follows-refl, Follows-exec, Follows-trans}
use jobsys.Worker.Pool.Worlds.{
  call-Follows, fail-Follows, conclude-Follows, maintain-Follows, claim-Follows,
}
use jobsys.Worker.Pool.Begun.{HasBegun, All-HasBegun-later, same_attempt, Claims, claim-Claims}

-- The run that the consume loop has just claimed, and those that goroutines execute.
abbrev pub answer_of : Stage → Option Run
answer_of (answered r) = r
answer_of _ = none

abbrev pub owned : Pool → List Run
owned p = noted (answer_of p.stage) (map task_run p.tasks)

module _ (cfg : Config) where
  -- Attempts that the worker has begun, each once.
  abbrev pub IsLive : Db → List Run → Type 0
  IsLive db rs = All (HasBegun cfg db) rs × Distinct same_attempt rs

  IsLive-later :
      (db db' : Db) (rs : List Run) → IsValid db → Follows db db' → IsLive db rs → IsLive db' rs
  IsLive-later db db' rs v f h = (All-HasBegun-later cfg db db' rs v f h.0, h.1)

  -- An attempt that waits has not begun.
  unbegun :
      (db : Db) (x s : Run)
      → find_run x.id db ≡ some s
      → phase s ≡ waiting x.attempt
      → HasBegun cfg db x
      → ⊥
  unbegun db x s found waits (t, found', state) =
      let same : t ≡ s = cc in
      elim state [
        | inl e ↦ let e' : phase s ≡ executing x.attempt (some cfg.id) = rw same at e in cc
        | inr o ↦
            let over : IsOver x.attempt (phase s) = rw same at o in
            let less : x.attempt < x.attempt = rw waits at over in absurd (omega arith)
      ]

  fresh :
      (db : Db) (r s : Run) (rs : List Run)
      → find_run r.id db ≡ some s
      → phase s ≡ waiting r.attempt
      → All (HasBegun cfg db) rs
      → contains same_attempt r rs ≡ false
  fresh db r s [] found waits h = refl
  fresh db r s (x ∷ rs) found waits h = elim (Bool-cases (same_attempt x r)) [
    | inl t ↦
        let id : r.id ≡ x.id = ground arith in
        let attempt : r.attempt ≡ x.attempt = ground arith in
        absurd (unbegun db x s (rw id at found) (rw attempt at waits) h.0)
    | inr f ↦ rw f (fresh db r s rs found waits h.1)
  ]

  IsLive-claimed :
      (db db' : Db) (r : Option Run) (rs : List Run)
      → IsValid db
      → Follows db db'
      → ((x : Run) → r ≡ some x → Claims cfg db db' x)
      → IsLive db rs
      → IsLive db' (noted r rs)
  IsLive-claimed db db' none rs v f c h = IsLive-later db db' rs v f h
  IsLive-claimed db db' (some r) rs v f c h =
      let (begun, waiting_before) = c r refl in
      let (s, found, waits) = waiting_before in
      let later = IsLive-later db db' rs v f h in
      ((begun, later.0), (fresh db r s rs found waits h.0, h.1))

  removed :
      (db db' : Db) (xs ys : List Run) (y : Run)
      → IsValid db
      → Follows db db'
      → IsLive db (xs ++ y ∷ ys)
      → IsLive db' (xs ++ ys)
  removed db db' xs ys y v f h =
      let (front, back) = All-split (HasBegun cfg db) xs (y ∷ ys) h.0 in
      IsLive-later db db' (xs ++ ys) v f
        (All-append (HasBegun cfg db) xs ys front back.1, Distinct-removed same_attempt y xs ys h.1)

  IsLive-removed :
      (db db' : Db) (r : Option Run) (rs ts us : List Task) (t : Task)
      → IsValid db
      → Follows db db'
      → rs ≡ ts ++ t ∷ us
      → IsLive db (noted r (map task_run rs))
      → IsLive db' (noted r (map task_run (ts ++ us)))
  IsLive-removed db db' none rs ts us t v f e h =
      let split = ap (map task_run) e ∙ map-append task_run ts (t ∷ us) in
      rw (map-append task_run ts us)
        (removed db db' (map task_run ts) (map task_run us) (task_run t) v f (rw split at h))
  IsLive-removed db db' (some r) rs ts us t v f e h =
      let split = ap (map task_run) e ∙ map-append task_run ts (t ∷ us) in
      rw (map-append task_run ts us)
        (removed db db' (r ∷ map task_run ts) (map task_run us) (task_run t) v f (rw split at h))

  pub record IsOnce (p : Pool) : Type 0 where
    pub valid : IsValid p.world.db
    pub logged : IsLive p.world.db p.claimed_runs
    pub current : IsLive p.world.db (owned p)

  -- A step that changes only the tables and what is executed.
  moved :
      (p q : Pool)
      → Follows p.world.db q.world.db
      → q.claimed_runs ≡ p.claimed_runs
      → IsOnce p
      → IsLive q.world.db (owned q)
      → IsOnce q
  moved p q f same h current = record {
    valid = rw f.1 (exec_all-IsValid f.0 p.world.db h.valid);
    logged = rw same (IsLive-later _ _ p.claimed_runs h.valid f h.logged);
    current = current;
  }

module _ (cfg : Config) (path : String → ℕ → String) (message : StoreError → String)
    (unmarshal : String → Result String Dispatch) (parse_uuid : String → Option ℕ) where
  load-Follows :
      (fault : Fault) (r : Run) (p : Pool)
      → Follows p.world.db (load cfg path message unmarshal parse_uuid fault r p).0.db
  load-Follows fault r p = call-Follows _ p.world fault (Follows-refl p.world.db)

  Step-IsOnce :
      (p q : Pool) → Step cfg path message unmarshal parse_uuid p q → IsOnce cfg p → IsOnce cfg q
  Step-IsOnce p q cancels h = moved cfg p q (Follows-refl _) refl h h.current
  Step-IsOnce p q (takes_slot at free) h =
      moved cfg p q (Follows-refl _) refl h (rw at at h.current)
  Step-IsOnce p q (stops at over) h = moved cfg p q (Follows-refl _) refl h (rw at at h.current)
  Step-IsOnce p q (cannot_fetch e n at taken) h =
      moved cfg p q (Follows-refl _) refl h (rw at at h.current)
  Step-IsOnce p q (fetches fault now value at) h =
      let a = claiming cfg path message unmarshal parse_uuid fault now value p in
      let f = claim-Follows cfg unmarshal parse_uuid fault now value p.world in
      let claims : (x : Run) → a.1 ≡ some x → Claims cfg p.world.db a.0.db x =
        λ x e. claim-Claims cfg unmarshal parse_uuid fault now value p.world x h.valid e in
      record {
        valid = rw f.1 (exec_all-IsValid f.0 p.world.db h.valid);
        logged = IsLive-claimed cfg p.world.db a.0.db a.1 p.claimed_runs h.valid f claims h.logged;
        current =
            IsLive-claimed cfg p.world.db a.0.db a.1 (map task_run p.tasks) h.valid f claims
              (rw at at h.current);
      }
  Step-IsOnce p q (skips n at taken) h = moved cfg p q (Follows-refl _) refl h (rw at at h.current)
  Step-IsOnce p q (starts r at) h = moved cfg p q (Follows-refl _) refl h (rw at at h.current)
  Step-IsOnce p q (loads r j before after fault of found) h =
      let f = load-Follows fault r p in
      let same : map task_run p.tasks ≡ map task_run q.tasks =
        ap (map task_run) of ∙ map-append task_run before _ ∙ sym (map-append task_run before _) in
      moved cfg p q f refl h (IsLive-later cfg p.world.db _ _ h.valid f (rw same at h.current))
  Step-IsOnce p q (cannot_load r e before after n env of taken why) h =
      let w = (load cfg path message unmarshal parse_uuid env.loading r p).0 in
      let f = Follows-trans _ _ _ (load-Follows env.loading r p) (fail-Follows cfg env r _ w) in
      moved cfg p q f refl h (
        IsLive-removed cfg p.world.db _ (answer_of p.stage) p.tasks before after _ h.valid f of
          h.current)
  Step-IsOnce p q (ends r j before after n env outcome of taken cause) h =
      let f = conclude-Follows cfg path message env r j outcome p.world in
      moved cfg p q f refl h (
        IsLive-removed cfg p.world.db _ (answer_of p.stage) p.tasks before after _ h.valid f of
          h.current)
  Step-IsOnce p q (hands_back e at) h = moved cfg p q (Follows-refl _) refl h h.current
  Step-IsOnce p q (returns e at none_left) h =
      moved cfg p q (Follows-refl _) refl h (rw at at h.current)
  Step-IsOnce p q (maintains pass on) h =
      let f = maintain-Follows cfg pass p.world in
      moved cfg p q f refl h (IsLive-later cfg p.world.db _ (owned p) h.valid f h.current)
  Step-IsOnce p q (others c) h =
      let f = Follows-exec c p.world.db in
      moved cfg p q f refl h (IsLive-later cfg p.world.db _ (owned p) h.valid f h.current)

  -- A worker never claims an attempt twice, and never executes one attempt of a run in two goroutines,
  -- however its steps and the calls of other processes follow each other, and whatever calls of its
  -- own fail or lose their answers. The tables are well formed at the start.
  pub Reachable-Distinct :
      (w : World) (p : Pool)
      → IsValid w.db
      → Reachable cfg path message unmarshal parse_uuid (start w) p
      → Distinct same_attempt p.claimed_runs × Distinct same_attempt (owned p)
  Reachable-Distinct w p v h = let o = once p h in (o.logged.1, o.current.1)
    where
      once : (q : Pool) → Reachable cfg path message unmarshal parse_uuid (start w) q → IsOnce cfg q
      once q here = record { valid = v; logged = (tt, tt); current = (tt, tt) }
      once q (next {q = r} reached step) = Step-IsOnce r q step (once r reached)
