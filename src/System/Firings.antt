-- ===== src/System/Firings.antt =====
-- A tick of the scheduler announces only runs of the table.
use mathlib.Core.List.{Memᴰ}
use mathlib.Core.List.Memᴰ
use jobsys.Base.{
  ℕ, ◌≡◌, refl, inl, inr, String, Bool, false, some, none, List, [], ◌∷◌, ◌++◌, Bool-cases, arith,
  Result, ok, err, ltb, length, find?, ◌==◌, map,
}
use mathlib.Core.Path.{subst}
use jobsys.Base.Columns.{find-append}
use jobsys.Base.Unique.{contains}
use jobsys.Store.Models.{Run, Db, Redispatch, StoreError, new_run, schedule}
use jobsys.Store.Table.{find_run}
use jobsys.Store.Jobs.{update_job}
use jobsys.Store.Runs.{insert_run, has_run, has_occurrence, has_job}
use jobsys.Store.Schedule.{
  DueJob, Firing, fired_run, queue_occurrence, advance, fire_job, fire_all, fire_due_jobs,
}
use jobsys.Store.Steps.{Result-cases}
use jobsys.Store.History.{exec, fires}
use jobsys.Job.Cron.{Clockwork}
use jobsys.Worker.Env.{World, Notice, Fault, call}
use jobsys.Worker.Maintain.{notice_of, redispatch_all, redispatch_run, rows_or_none}
use jobsys.Scheduler.{Round, batch, committed, fired_or_none, dispatch_fired, fire, next, tick}
use jobsys.System.Sound.{IsKnown, IsSound}
use jobsys.System.Passes.{statement-IsSound}

find?-old :
    {A : Type 0} (p : A → Bool) (xs ys : List A) (a : A)
    → find? p xs ≡ some a
    → find? p (xs ++ ys) ≡ some a
find?-old p [] ys a e = cc
find?-old p (x ∷ xs) ys a e = ground (arith, find?-old p xs ys a)

pub absent-find :
    (id : ℕ) (rs : List Run)
    → contains ◌==◌ id (map (λ r. r.id) rs) ≡ false
    → find? (λ r. r.id == id) rs ≡ none
absent-find id [] h = refl
absent-find id (r ∷ rs) h = ground (arith, absent-find id rs)

IsKnown-insert : (n : Notice) (r : Run) (db : Db) → IsKnown n db → IsKnown n (insert_run r db)
unfolding find_run insert_run
IsKnown-insert n r db (s, found, low) = (s, find?-old _ db.runs (r ∷ []) s found, low)

-- The runs that a transaction has queued so far are in its tables.
abbrev AllFired : Firing → Type 0
AllFired s = (r : Redispatch) → Memᴰ r s.fired → IsKnown (notice_of r) s.db

inserted-AllFired :
    (now id : ℕ) (d : DueJob) (s : Firing)
    → has_run id s.db ≡ false
    → AllFired s
    → let r = new_run id d.id d.next_run_at schedule now in
      AllFired (record s { db = insert_run r s.db; fired = s.fired ++ fired_run r d ∷ [] })
unfolding find_run insert_run
inserted-AllFired now id d s fresh h x m = elim (Memᴰ.append_cases s.fired m) [
  | inl old ↦ IsKnown-insert (notice_of x) run s.db (h x old)
  | inr new ↦ rw (Memᴰ.eq_of_singleton new) (run, here, omega arith)
]
  where
    run : Run
    run = new_run id d.id d.next_run_at schedule now

    here : find_run id (insert_run run s.db) ≡ some run
    here = find-append (λ r. r.id) id s.db.runs run (absent-find id s.db.runs fresh) refl

queued-AllFired :
    (now id : ℕ) (d : DueJob) (s t : Firing)
    → queue_occurrence now id d s ≡ ok t
    → AllFired s
    → AllFired t
unfolding queue_occurrence
queued-AllFired now id d s t e h = elim (Bool-cases (has_occurrence (d.id, d.next_run_at) s.db)) [
  | inl a ↦ let same : s ≡ t = ground arith in rw same at h
  | inr a ↦ elim (Bool-cases (has_run id s.db)) [
    | inl b ↦ absurd (ground arith)
    | inr b ↦ elim (Bool-cases (has_job d.id s.db)) [
      | inr c ↦ absurd (ground arith)
      | inl c ↦
          let r = new_run id d.id d.next_run_at schedule now in
          let same : record s { db = insert_run r s.db; fired = s.fired ++ fired_run r d ∷ [] }
              ≡ t =
            ground arith in
          subst AllFired same (inserted-AllFired now id d s b h)
    ]
  ]
]

advance-AllFired :
    (now : ℕ) (d : DueJob) (o : Result String ℕ) (s : Firing)
    → AllFired s
    → AllFired (advance now d o s)
unfolding advance update_job find_run
advance-AllFired now d (ok t) s h = h
advance-AllFired now d (err e) s h = h

module _ (now : ℕ) (new_id : DueJob → ℕ) (next : DueJob → Result String ℕ) where
  fire_all-AllFired :
      (ds : List DueJob) (s t : Firing)
      → fire_all now new_id next ds s ≡ ok t
      → AllFired s
      → AllFired t
  unfolding fire_all fire_job
  fire_all-AllFired [] s t e h = let same : s ≡ t = ground arith in rw same at h
  fire_all-AllFired (d ∷ ds) s t e h = elim (Result-cases (queue_occurrence now (new_id d) d s)) [
    | inr (x, k) ↦ let no : err x ≡ ok t = rw k at e in cc
    | inl (q, k) ↦
        let rest : fire_all now new_id next ds (advance now d (next d) q) ≡ ok t = rw k at e in
        fire_all-AllFired ds (advance now d (next d) q) t rest
          (advance-AllFired now d (next d) q (queued-AllFired now (new_id d) d s q k h))
  ]

  committed-IsKnown :
      (locked : ℕ → Bool) (limit : ℕ) (db : Db) (o : Result StoreError Firing)
      → fire_due_jobs now new_id next locked limit db ≡ o
      → (r : Redispatch) → Memᴰ r (committed db o).1
      → IsKnown (notice_of r) (committed db o).0
  unfolding fire_due_jobs
  committed-IsKnown locked limit db (err e) k r m = absurd (Memᴰ.not-nil m)
  committed-IsKnown locked limit db (ok t) k r m =
      fire_all-AllFired _ _ t k (λ x n. absurd (Memᴰ.not-nil n)) r m

  committed-exec :
      (locked : ℕ → Bool) (limit : ℕ) (db : Db) (o : Result StoreError Firing)
      → fire_due_jobs now new_id next locked limit db ≡ o
      → (committed db o).0 ≡ exec (fires now new_id next locked limit) db
  unfolding exec
  committed-exec locked limit db (err e) k = rw k refl
  committed-exec locked limit db (ok t) k = rw k refl

-- The scheduler hands a transaction's rows on as the maintenance pass does.
fired_or_none-rows :
    (a : World × Result String (List Redispatch)) → fired_or_none a ≡ rows_or_none a
fired_or_none-rows (w, ok rs) = refl
fired_or_none-rows (w, err e) = refl

dispatch_fired-redispatch_all :
    (faults : ℕ → Fault) (rs : List Redispatch) (w : World)
    → dispatch_fired faults rs w ≡ redispatch_all faults rs w
unfolding dispatch_fired redispatch_all redispatch_run
dispatch_fired-redispatch_all faults [] w = refl
dispatch_fired-redispatch_all faults (r ∷ rs) w = dispatch_fired-redispatch_all faults rs _

module _ (quote : String → String) (c : Clockwork) where
  round-IsSound :
      (r : Round) (w : World)
      → IsSound w
      → IsSound (dispatch_fired r.dispatching (fire quote c r w).1 (fire quote c r w).0)
  unfolding fire
  round-IsSound r w h =
      let f : Db → Db × List Redispatch = λ db.
        committed db (fire_due_jobs r.now r.new_id (next quote c r.clock) r.locked batch db) in
      let done =
        statement-IsSound r.firing (fires r.now r.new_id (next quote c r.clock) r.locked batch) f
          (λ rs. rs) (λ x rs m. m) r.dispatching w h
          (committed-exec r.now r.new_id (next quote c r.clock) r.locked batch w.db _ refl)
          (committed-IsKnown r.now r.new_id (next quote c r.clock) r.locked batch w.db _ refl) in
      rw
        (
          fired_or_none-rows (call r.firing f w),
          dispatch_fired-redispatch_all r.dispatching (rows_or_none (call r.firing f w)).1
              (rows_or_none (call r.firing f w)).0,
        )
        done

  pub tick-IsSound : (rs : List Round) (w : World) → IsSound w → IsSound (tick quote c rs w).0
  unfolding tick
  tick-IsSound [] w h = h
  tick-IsSound (r ∷ rs) w h =
      let sent = round-IsSound r w h in
      elim (Bool-cases (ltb (length (fire quote c r w).1) batch)) [
        | inl t ↦ rw t sent
        | inr f ↦ rw f (tick-IsSound rs _ sent)
      ]
