-- ===== src/Store/Recovery.antt =====
-- The reaper, the retry dispatcher and the sweeper: which runs a pass handles, and how.
use jobsys.Base.{
  ℕ, ◌≡◌, ◌≤◌, refl, ap, ◌∙◌, Bool, true, false, none, some, List, [], ◌∷◌, arith, ◌==◌, ◌&&◌, not,
  select, inl, inr, if◌then◌else◌, Bool-cases, Option-cases, leb, sort_with, length,
}
use jobsys.Base.Sorting.{length-sort_with, take-all, names, names-sort_with}
use mathlib.Core.List.{Memᴰ}
use jobsys.Base.Columns.{All-find?, find?-satisfies}
use jobsys.Base.Members.{find?-Memᴰ, Memᴰ-map}
use jobsys.Store.Models.{Job, Run, Db}
use jobsys.Store.Table.{
  update_batch, find_run, find_job, lock_batch, join_jobs, in_batch, apply_entry, redispatch,
  returning,
}
use jobsys.Store.Batches.{HasRunIds, IsEntry, lock_batch-IsEntry}
use jobsys.Store.Evolve.{find_id}
use jobsys.Store.Keyed.{find-map}
use jobsys.Store.Worker.{reap_stale, reaped, is_stale, sweep_queued, requeued_now, is_forgotten}
use jobsys.Store.Retry.{due_retries, dispatched_retry, is_due_retry}

-- The key that an entry of a batch stands for.
abbrev entry_id : Run × Job → ℕ
entry_id e = e.0.id

module _ (db : Db) (q : Run × Job → Bool) where
  length-chosen : (rs : List Run) → length (select q (join_jobs db rs)) ≤ length rs
  unfolding join_jobs
  length-chosen [] = omega arith
  length-chosen (r ∷ rs) = ground (arith, length-chosen rs)

  names-chosen :
      (r : Run) (j : Job) (rs : List Run)
      → find_id r.id rs ≡ some r
      → find_job r.job_id db ≡ some j
      → q (r, j) ≡ true
      → names entry_id r.id (select q (join_jobs db rs)) ≡ true
  unfolding join_jobs
  names-chosen r j [] e f t = cc
  names-chosen r j (x ∷ rs) e f t = elim (Bool-cases (x.id == r.id)) [
    | inl h ↦ let k : x ≡ r = ground arith in rw (k, f, t) (ground arith)
    | inr h ↦ let ih = names-chosen r j rs (ground arith) f t in ground arith
  ]

named-found :
    (id : ℕ) (es : List (Run × Job))
    → names entry_id id es ≡ true
    → (e : Run × Job) × (in_batch es id ≡ some e)
unfolding in_batch
named-found id [] h = cc
named-found id (e ∷ es) h = elim (Bool-cases (e.0.id == id)) [
  | inl t ↦ (e, rw t refl)
  | inr f ↦ let (x, found) = named-found id es (ground arith) in (x, rw f found)
]

module _ (db : Db) (keyed : HasRunIds db) (locked : ℕ → Bool) (p : Run → Bool) (key : Run → ℕ)
    (limit : ℕ) (r : Run) (j : Job) (found : find_run r.id db ≡ some r)
    (job : find_job r.job_id db ≡ some j) where
  abbrev the_batch : List (Run × Job)
  the_batch = lock_batch locked p key limit db

  -- What a batch holds of a run is that run, beside its job, if it satisfies the test and is not
  -- held by another transaction.
  entry-is :
      (e : Run × Job)
      → in_batch the_batch r.id ≡ some e
      → (e ≡ (r, j)) × (p r ≡ true) × (locked r.id ≡ false)
  unfolding in_batch
  entry-is e h =
      let (entry, free) =
        All-find? (λ e. IsEntry db p e × (locked e.0.id ≡ false)) _ the_batch e h
          (lock_batch-IsEntry db locked p key limit keyed) in
      let same : (e.0.id == r.id) ≡ true = find?-satisfies _ the_batch e h in
      let id : e.0.id ≡ r.id = ground arith in
      let k : e.0 ≡ r = cc in let l : e.1 ≡ j = cc in (cc, rw k at (entry.2), rw k at free)

  -- With room for every run, the batch has an entry for a run exactly if it qualifies.
  in_batch-chosen :
      length db.runs ≤ limit
      → in_batch the_batch r.id ≡ (if (p r && not (locked r.id)) then some (r, j) else none)
  in_batch-chosen room = elim (Bool-cases (p r && not (locked r.id))) [
    | inl t ↦
        let (e, h) = named-found r.id the_batch (named t) in rw t (h ∙ ap some (entry-is e h).0)
    | inr f ↦ elim (Option-cases (in_batch the_batch r.id)) [
      | inl h ↦ rw f h
      | inr (e, h) ↦ let (_, t, free) = entry-is e h in absurd (ground arith)
    ]
  ]
    where
      q : Run × Job → Bool
      q e = p e.0 && not (locked e.0.id)

      le : Run × Job → Run × Job → Bool
      le a b = leb (key a.0) (key b.0)

      chosen : List (Run × Job)
      chosen = select q (join_jobs db db.runs)

      fits : length (sort_with le chosen) ≤ limit
      fits = omega (arith, length-sort_with le chosen, length-chosen db q db.runs)

      named : (p r && not (locked r.id)) ≡ true → names entry_id r.id the_batch ≡ true
      named t =
          unfold lock_batch find_run in
          rw (take-all limit (sort_with le chosen) fits, names-sort_with entry_id r.id le chosen)
            (names-chosen db q r j db.runs found job t)

  -- A run that a pass handles is among the rows it returns.
  returned :
      (f : Job → Run → Run)
      → length db.runs ≤ limit
      → (p r && not (locked r.id)) ≡ true
      → Memᴰ (redispatch j (f j r)) (returning the_batch f)
  unfolding returning in_batch
  returned f room t =
      let entry = in_batch-chosen room in
      Memᴰ-map (λ e. redispatch e.1 (f e.1 e.0)) the_batch (find?-Memᴰ _ the_batch (rw t at entry))

  pass-one :
      (f : Job → Run → Run)
      → length db.runs ≤ limit
      → ((k : Job) (x : Run) → (f k x).id ≡ x.id)
      → find_run r.id (update_batch the_batch f db)
        ≡ some (if (p r && not (locked r.id)) then f j r else r)
  unfolding find_run update_batch
  pass-one f room same =
      find-map r.id (λ x. apply_entry f x (in_batch the_batch x.id)) db.runs r keeps found
      ∙ rw (in_batch-chosen room) (ground arith)
    where
      keeps : (x : Run) → (apply_entry f x (in_batch the_batch x.id)).id ≡ x.id
      keeps x = elim (Option-cases (in_batch the_batch x.id)) [
        | inl e ↦ rw e refl
        | inr (y, e) ↦ rw e (same y.1 x)
      ]

module _ (db : Db) (keyed : HasRunIds db) (locked : ℕ → Bool) (limit : ℕ) (r : Run) (j : Job)
    (found : find_run r.id db ≡ some r) (job : find_job r.job_id db ≡ some j)
    (room : length db.runs ≤ limit) (now : ℕ) where
  -- A pass of the reaper with room for every run: a run whose worker has been silent for longer than
  -- `stale_after`, and which no other transaction holds, is requeued or failed; any other run keeps
  -- its row.
  pub reap_stale_lem :
      (stale_after : ℕ)
      → find_run r.id (reap_stale now locked stale_after limit db).0
        ≡ some (if (is_stale now stale_after r && not (locked r.id)) then reaped now j r else r)
  unfolding reap_stale
  reap_stale_lem stale_after =
      pass-one db keyed locked (is_stale now stale_after) _ limit r j found job (reaped now) room
        (λ k x. ground arith)

  pub reap_stale-Memᴰ :
      (stale_after : ℕ)
      → (is_stale now stale_after r && not (locked r.id)) ≡ true
      → Memᴰ (redispatch j (reaped now j r)) (reap_stale now locked stale_after limit db).1
  unfolding reap_stale
  reap_stale-Memᴰ stale_after =
      returned db keyed locked (is_stale now stale_after) _ limit r j found job (reaped now) room

  -- The sweeper with room for every run: it refreshes queued_at of the free runs that have waited
  -- for longer than `older` with no backoff left, and of no other.
  pub sweep_queued_lem :
      (older : ℕ)
      → find_run r.id (sweep_queued now locked older limit db).0
        ≡ some (if (is_forgotten now older r && not (locked r.id)) then requeued_now now j r else r)
  unfolding sweep_queued
  sweep_queued_lem older =
      pass-one db keyed locked (is_forgotten now older) _ limit r j found job (requeued_now now)
        room (λ k x. refl)

  pub sweep_queued-Memᴰ :
      (older : ℕ)
      → (is_forgotten now older r && not (locked r.id)) ≡ true
      → Memᴰ (redispatch j (requeued_now now j r)) (sweep_queued now locked older limit db).1
  unfolding sweep_queued
  sweep_queued-Memᴰ older =
      returned db keyed locked (is_forgotten now older) _ limit r j found job (requeued_now now)
        room

  -- The retry dispatcher with room for every run: it clears the backoff of the free retries whose
  -- backoff has elapsed, and of no other run.
  pub due_retries_lem :
      find_run r.id (due_retries now locked limit db).0
      ≡ some (if (is_due_retry now r && not (locked r.id)) then dispatched_retry now j r else r)
  unfolding due_retries
  due_retries_lem =
      pass-one db keyed locked (is_due_retry now) _ limit r j found job (dispatched_retry now) room
        (λ k x. refl)

  pub due_retries-Memᴰ :
      (is_due_retry now r && not (locked r.id)) ≡ true
      → Memᴰ (redispatch j (dispatched_retry now j r)) (due_retries now locked limit db).1
  unfolding due_retries
  due_retries-Memᴰ =
      returned db keyed locked (is_due_retry now) _ limit r j found job (dispatched_retry now) room
