-- ===== src/Worker/HandledRows.antt =====
-- What the parts of a maintenance pass keep of a row.
use jobsys.Base.{ℕ, ◌≡◌, refl, ap, ◌∙◌, true, false, arith, Bool-cases, inl, inr}
use jobsys.Store.Models.{Run, Job, is_queued}
use jobsys.Store.Table.{redispatch}
use jobsys.Store.Rows.{IsShaped}
use jobsys.Store.Worker.{exhausted}
use jobsys.Store.Claims.{is_ready}
use jobsys.Store.Retry.{is_due_retry}
use jobsys.Worker.Env.{Config}
use jobsys.Worker.Maintain.{Pass, notice_of}
use jobsys.Worker.Handling.{
  is_reaped, is_retried, is_swept, reaped_row, retried_row, swept_row, recovered,
}

-- What the parts of a pass keep of a row.
module _ (cfg : Config) (pass : Pass) (j : Job) where
  pub retried_row-notice :
      (r : Run) → notice_of (redispatch j (retried_row cfg pass j r)) ≡ notice_of (redispatch j r)
  retried_row-notice r = elim (Bool-cases (is_retried cfg pass j r)) [
    | inl t ↦ rw t refl
    | inr f ↦ rw f refl
  ]

  pub swept_row-notice :
      (r : Run) → notice_of (redispatch j (swept_row cfg pass j r)) ≡ notice_of (redispatch j r)
  swept_row-notice r = elim (Bool-cases (is_swept cfg pass j r)) [
    | inl t ↦ rw t refl
    | inr f ↦ rw f refl
  ]

  pub swept_row-ready : (now : ℕ) (r : Run) → is_ready now (swept_row cfg pass j r) ≡ is_ready now r
  swept_row-ready now r = elim (Bool-cases (is_swept cfg pass j r)) [
    | inl t ↦ rw t refl
    | inr f ↦ rw f refl
  ]

  pub retried_row-ready :
      (now : ℕ) (r : Run) → is_ready now r ≡ true → is_ready now (retried_row cfg pass j r) ≡ true
  retried_row-ready now r h = elim (Bool-cases (is_retried cfg pass j r)) [
    | inl t ↦ rw t (ground arith)
    | inr f ↦ rw f h
  ]

  pub retried_row-early :
      (r : Run) → is_due_retry pass.retry_at r ≡ false → retried_row cfg pass j r ≡ r
  retried_row-early r f = rw f refl

  pub due-ready :
      (now : ℕ) (r : Run)
      → is_retried cfg pass j r ≡ true
      → is_ready now (retried_row cfg pass j r) ≡ true
  due-ready now r t = rw t (ground arith)

  pub reaped_row-ready :
      (now : ℕ) (r : Run)
      → IsShaped r
      → is_reaped cfg pass j r ≡ true
      → exhausted j r ≡ false
      → is_ready now (reaped_row cfg pass j r) ≡ true
  reaped_row-ready now r shaped t k =
      let undelayed = shaped.running_undelayed in rw (t, k) (ground arith)

  pub reaped_row-id : (r : Run) → (reaped_row cfg pass j r).id ≡ r.id
  reaped_row-id r = ground arith

  pub recovered-id : (r : Run) → (recovered cfg pass j r).id ≡ r.id
  recovered-id r =
      ap (λ n. n.run_id) (swept_row-notice (retried_row cfg pass j (reaped_row cfg pass j r)))
      ∙ ap (λ n. n.run_id) (retried_row-notice (reaped_row cfg pass j r))
      ∙ reaped_row-id r

  -- The reaper passes over a queued run.
  pub reaped_row-queued : (r : Run) → is_queued r.status ≡ true → reaped_row cfg pass j r ≡ r
  reaped_row-queued r q = let f : is_reaped cfg pass j r ≡ false = ground arith in rw f refl
