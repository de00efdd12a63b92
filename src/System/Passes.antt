-- ===== src/System/Passes.antt =====
-- A maintenance pass announces only runs of the table, at attempts that they have reached.
use mathlib.Core.List.{Memᴰ}
use mathlib.Core.List.Memᴰ
use mathlib.Core.List.Memᴰ.{head, tail}
use jobsys.Base.{
  ℕ, ◌≡◌, refl, inl, inr, Bool, List, [], ◌∷◌, Bool-cases, arith, String, Result, ok, err,
}
use jobsys.Base.Columns.{All-map}
use jobsys.Store.Models.{Run, Job, Db, Redispatch}
use jobsys.Store.Table.{update_batch, returning, lock_batch}
use jobsys.Store.Batches.{IsEntry, lock_batch-IsEntry}
use jobsys.Store.Returned.{returning-found}
use jobsys.Store.Follows.{Follows-exec}
use jobsys.Store.History.{Call, exec, reaps, retries, sweeps}
use jobsys.Store.Histories.{IsValid}
use jobsys.Store.Worker.{reaped, requeued_now, reap_stale, sweep_queued}
use jobsys.Store.Retry.{dispatched_retry, due_retries}
use jobsys.Worker.Env.{Config, World, Fault, call}
use jobsys.Worker.Maintain.{
  Pass, maintain, reap, retry, sweep, redispatch_all, requeued, maintenance_batch, notice_of,
  rows_or_none, is_failed,
}
use jobsys.System.Sound.{IsKnown, IsSound, call-IsSound, rows-IsKnown, redispatch_all-IsSound}

rows_or_none-world : (a : World × Result String (List Redispatch)) → (rows_or_none a).0 ≡ a.0
rows_or_none-world (w, ok rs) = refl
rows_or_none-world (w, err e) = refl

-- The rows of a locked batch.
batch-IsKnown :
    (db : Db) (locked : ℕ → Bool) (p : Run → Bool) (key : Run → ℕ) (limit : ℕ) (f : Job → Run → Run)
    → IsValid db
    → ((j : Job) (r : Run) → (f j r).id ≡ r.id)
    → let batch = lock_batch locked p key limit db in
      (r : Redispatch)
      → Memᴰ r (returning batch f)
      → IsKnown (notice_of r) (update_batch batch f db)
batch-IsKnown db locked p key limit f valid same_id r m =
    let batch = lock_batch locked p key limit db in
    let entries =
      All-map _ (IsEntry db p) (λ e h. h.0) batch
        (lock_batch-IsEntry db locked p key limit valid.keyed) in
    let (s, found, attempt) = returning-found db p f same_id batch entries r m in
    (s, found, omega (arith, attempt))

requeued-kept : (r : Redispatch) (rs : List Redispatch) → Memᴰ r (requeued rs) → Memᴰ r rs
unfolding requeued
requeued-kept r [] m = m
requeued-kept r (s ∷ rs) m = elim (Bool-cases (is_failed s.status)) [
  | inl t ↦ tail (requeued-kept r rs (rw t at m))
  | inr f ↦ elim (Memᴰ.cases_cons (rw f at m)) [
    | inl e ↦ head e
    | inr later ↦ tail (requeued-kept r rs later)
  ]
]

module _ (x : Fault) (c : Call) (f : Db → Db × List Redispatch)
    (keep : List Redispatch → List Redispatch)
    (kept : (r : Redispatch) (rs : List Redispatch) → Memᴰ r (keep rs) → Memᴰ r rs)
    (faults : ℕ → Fault) (w : World) (h : IsSound w) (same : (f w.db).0 ≡ exec c w.db)
    (known : (r : Redispatch) → Memᴰ r (f w.db).1 → IsKnown (notice_of r) (f w.db).0) where
  abbrev pub answer : World × List Redispatch
  answer = rows_or_none (call x f w)

  pub statement-IsSound : IsSound (redispatch_all faults (keep answer.1) answer.0)
  statement-IsSound =
      let made = call-IsSound x f w h (rw same (Follows-exec c w.db)) in
      redispatch_all-IsSound faults (keep answer.1) answer.0
        (rw (rows_or_none-world (call x f w)) made)
        (λ r m. rows-IsKnown x f w known r (kept r answer.1 m))

module _ (cfg : Config) (pass : Pass) (w : World) (h : IsSound w) where
  reap-IsSound : IsSound (reap cfg pass w)
  unfolding reap exec
  reap-IsSound =
      statement-IsSound pass.reaping
        (reaps pass.reap_at pass.locked cfg.stale_after maintenance_batch) _ requeued requeued-kept
        pass.dispatching w h refl reap_known
    where
      reap_known :
          (r : Redispatch)
          → Memᴰ r (reap_stale pass.reap_at pass.locked cfg.stale_after maintenance_batch w.db).1
          → IsKnown
              (notice_of r)
              (reap_stale pass.reap_at pass.locked cfg.stale_after maintenance_batch w.db).0
      reap_known =
          unfold reap_stale in
          batch-IsKnown w.db pass.locked _ _ maintenance_batch (reaped pass.reap_at) h.valid
            (λ j r. ground arith)

  retry-IsSound : IsSound (retry cfg pass w)
  unfolding retry exec
  retry-IsSound =
      statement-IsSound pass.retrying (retries pass.retry_at pass.locked maintenance_batch) _
        (λ rs. rs) (λ r rs m. m) pass.dispatching w h refl retry_known
    where
      retry_known :
          (r : Redispatch)
          → Memᴰ r (due_retries pass.retry_at pass.locked maintenance_batch w.db).1
          → IsKnown (notice_of r) (due_retries pass.retry_at pass.locked maintenance_batch w.db).0
      retry_known =
          unfold due_retries in
          batch-IsKnown w.db pass.locked _ _ maintenance_batch (dispatched_retry pass.retry_at)
            h.valid (λ j r. ground arith)

  sweep-IsSound : IsSound (sweep cfg pass w)
  unfolding sweep exec
  sweep-IsSound =
      statement-IsSound pass.sweeping
        (sweeps pass.sweep_at pass.locked cfg.sweep_after maintenance_batch) _ (λ rs. rs)
        (λ r rs m. m) pass.dispatching w h refl sweep_known
    where
      sweep_known :
          (r : Redispatch)
          → Memᴰ r (sweep_queued pass.sweep_at pass.locked cfg.sweep_after maintenance_batch w.db).1
          → IsKnown
              (notice_of r)
              (sweep_queued pass.sweep_at pass.locked cfg.sweep_after maintenance_batch w.db).0
      sweep_known =
          unfold sweep_queued in
          batch-IsKnown w.db pass.locked _ _ maintenance_batch (requeued_now pass.sweep_at) h.valid
            (λ j r. ground arith)

pub maintain-IsSound :
    (cfg : Config) (pass : Pass) (w : World) → IsSound w → IsSound (maintain cfg pass w)
unfolding maintain
maintain-IsSound cfg pass w h =
    sweep-IsSound cfg pass (retry cfg pass (reap cfg pass w))
      (retry-IsSound cfg pass (reap cfg pass w) (reap-IsSound cfg pass w h))
