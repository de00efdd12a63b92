-- ===== src/Store/Fencing.antt =====
-- A worker that has lost an attempt can no longer write about it.
use jobsys.Base.{
  ℕ, ◌≡◌, ◌≤◌, ◌<◌, refl, ap, String, Bool, false, Option, none, some, List, [], ◌∷◌, map, arith,
  All, ◌==◌, select, inl, inr, if◌then◌else◌, Bool-cases,
}
use jobsys.Base.Columns.{All-map}
use jobsys.Store.Models.{Run, Db, Status}
use jobsys.Store.Table.{update, updated, update_batch, join_jobs, in_batch, returning, find_run}
use jobsys.Store.Batches.{rows-IsRow}
use jobsys.Store.Worker.{owns, write_owned, heartbeat, finish_run, release_run}
use jobsys.Store.Retry.{fail_or_retry}
use jobsys.Store.History.{Call, exec_all}
use jobsys.Store.Histories.{IsValid, exec_all-IsValid, exec_all-keeps}

module _ (p : Run → Bool) where
  select-none : (rs : List Run) → All (λ r. p r ≡ false) rs → select p rs ≡ []
  select-none [] h = refl
  select-none (r ∷ rs) h = rw h.0 (select-none rs h.1)

  map-none :
      (f : Run → Run) (rs : List Run)
      → All (λ r. p r ≡ false) rs
      → map (λ r. if p r then f r else r) rs ≡ rs
  map-none f [] h = refl
  map-none f (r ∷ rs) h = rw h.0 (ap (◌∷◌ r) (map-none f rs h.1))

map-unchanged : (rs : List Run) → map (λ r. r) rs ≡ rs
map-unchanged [] = refl
map-unchanged (r ∷ rs) = ap (◌∷◌ r) (map-unchanged rs)

-- The four answers to a worker that owns nothing, and the unchanged tables.
abbrev pub IsFenced : ℕ → String → ℕ → Db → Type 0
IsFenced id worker attempt db =
    ((now : ℕ) → heartbeat now id worker attempt db ≡ (db, false))
    × ((now : ℕ) (s : Status) (o e : Option String)
        → finish_run now id worker attempt s o e db ≡ (db, false))
    × ((now : ℕ) (why : String) → release_run now id worker attempt why db ≡ (db, false))
    × ((now : ℕ) (why : String) (backoff : ℕ)
        → fail_or_retry now id worker attempt why backoff db ≡ (db, none))

module _ (id : ℕ) (worker : String) (attempt : ℕ) (db : Db)
    (unowned : All (λ r. owns id worker attempt r ≡ false) db.runs) where
  write_owned-refused : (f : Run → Run) → write_owned id worker attempt f db ≡ (db, false)
  unfolding write_owned update updated
  write_owned-refused f =
      let e : map (λ r. if owns id worker attempt r then f r else r) db.runs ≡ db.runs =
        map-none (owns id worker attempt) f db.runs unowned in
      let k : select (owns id worker attempt) db.runs ≡ [] =
        select-none (owns id worker attempt) db.runs unowned in
      rw (e, k) refl

  unowned-IsFenced : IsFenced id worker attempt db
  unfolding heartbeat finish_run release_run fail_or_retry join_jobs update_batch in_batch returning
  unowned-IsFenced =
      let k : select (owns id worker attempt) db.runs ≡ [] =
        select-none (owns id worker attempt) db.runs unowned in
      (
        λ now. write_owned-refused _,
        λ now s o e. write_owned-refused _,
        λ now why. write_owned-refused _,
        λ now why backoff. rw (k, map-unchanged db.runs) refl,
      )

-- Once a run counts a later attempt, whatever has been called since, the worker of the earlier one
-- is told so by its heartbeat and by every write that would end the attempt, and none of them
-- changes the tables.
pub stale_attempt-IsFenced :
    (cs : List Call) (db : Db) (r : Run) (worker : String) (attempt : ℕ)
    → IsValid db
    → find_run r.id db ≡ some r
    → attempt < r.attempt
    → IsFenced r.id worker attempt (exec_all cs db)
stale_attempt-IsFenced cs db r worker attempt v found h =
    let (s, found', _, _, grown) = exec_all-keeps cs db v r found in
    let v' = exec_all-IsValid cs db v in
    unowned-IsFenced r.id worker attempt (exec_all cs db)
      (All-map _ _ (refused s found' grown) _ (rows-IsRow (exec_all cs db) v'.keyed))
  where
    refused :
        (s : Run)
        → find_run r.id (exec_all cs db) ≡ some s
        → r.attempt ≤ s.attempt
        → (x : Run) → find_run x.id (exec_all cs db) ≡ some x
        → owns r.id worker attempt x ≡ false
    refused s found' grown x own = elim (Bool-cases (x.id == r.id)) [
      | inl e ↦ let i : x.id ≡ r.id = ground arith in let j : x ≡ s = cc in rw j (ground arith)
      | inr e ↦ rw e refl
    ]
