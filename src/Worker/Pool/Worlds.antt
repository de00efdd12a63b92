-- ===== src/Worker/Pool/Worlds.antt =====
-- What a worker does to the tables is a history of the store's calls.
use jobsys.Base.{
  ℕ, ◌≡◌, refl, ap, ◌∙◌, String, Bool, true, false, Option, none, some, List, [], ◌∷◌, Result, ok,
  err, ◌<>◌, arith,
}
use jobsys.Queue.{Dispatch, decode_dispatch}
use jobsys.Store.Models.{Run, Job, Db, StoreError, Redispatch}
use jobsys.Store.Worker.{claim_run}
use jobsys.Store.History.{Call, exec, claims, succeeds, fails, releases, reaps, retries, sweeps}
use jobsys.Store.Follows.{Follows, Follows-refl, Follows-exec, Follows-trans, Follows-same}
use jobsys.Worker.Env.{Config, World, Fault, fine, refused, unanswered, Notice, call, dispatch}
use jobsys.Worker.Execute.{
  Env, Cause, lost_run, shutdown, timeout, backoff_of, claim, fail, succeed, release, announce,
  write_output_file, conclude, claimed_or_none, claim_named,
}
use jobsys.Worker.Maintain.{
  Pass, maintain, reap, retry, sweep, redispatch_all, redispatch_run, requeued, maintenance_batch,
  notice_of, rows_or_none,
}

module _ {ℓ} {A : Type ℓ} (f : Db → Db × A) (w : World) where
  pub call-Follows : (x : Fault) → Follows w.db (f w.db).0 → Follows w.db (call x f w).0.db
  unfolding call
  call-Follows fine h = h
  call-Follows (refused e) h = Follows-refl w.db
  call-Follows (unanswered e) h = h

pub dispatch-db : (x : Fault) (n : Notice) (w : World) → (dispatch x n w).0.db ≡ w.db
unfolding dispatch
dispatch-db fine n w = refl
dispatch-db (refused e) n w = refl
dispatch-db (unanswered e) n w = refl

pub redispatch_all-db :
    (faults : ℕ → Fault) (rs : List Redispatch) (w : World) → (redispatch_all faults rs w).db ≡ w.db
unfolding redispatch_all redispatch_run
redispatch_all-db faults [] w = refl
redispatch_all-db faults (r ∷ rs) w =
    redispatch_all-db faults rs (redispatch_run faults r w)
    ∙ dispatch-db (faults r.run_id) (notice_of r) w

module _ (cfg : Config) where
  pub fail-Follows :
      (env : Env) (r : Run) (why : String) (w : World) → Follows w.db (fail cfg env r why w).db
  unfolding fail exec
  fail-Follows env r why w =
      call-Follows _ w env.ending
        (Follows-exec (fails env.ended_at r.id cfg.id r.attempt why (backoff_of cfg r)) w.db)

  succeed-Follows :
      (env : Env) (r : Run) (output : String) (w : World)
      → Follows w.db (succeed cfg env r output w).db
  unfolding succeed exec
  succeed-Follows env r output w =
      call-Follows _ w env.ending
        (Follows-exec (succeeds env.ended_at r.id cfg.id r.attempt output) w.db)

  announce-db :
      (env : Env) (r : Run) (t : String) (a : World × Result String Bool)
      → (announce cfg env r t a).db ≡ a.0.db
  announce-db env r t (w, ok true) = dispatch-db env.dispatching _ w
  announce-db env r t (w, ok false) = refl
  announce-db env r t (w, err e) = refl

  release-Follows :
      (env : Env) (r : Run) (t : String) (w : World) → Follows w.db (release cfg env r t w).db
  unfolding release exec
  release-Follows env r t w =
      Follows-trans _ _ _
        (call-Follows _ w env.ending (
          Follows-exec
            (releases env.ended_at r.id cfg.id r.attempt
              ("released by " <> cfg.id <> " shutting down"))
            w.db))
        (Follows-same _ _ (announce-db env r t _))

  rows-db : (a : World × Result String (List Redispatch)) → (rows_or_none a).0 ≡ a.0
  rows-db (w, ok rs) = refl
  rows-db (w, err e) = refl

  -- A statement and the announcements of its rows.
  statement-Follows :
      (x : Fault) (c : Call) (f : Db → Db × List Redispatch)
      (keep : List Redispatch → List Redispatch) (faults : ℕ → Fault) (w : World)
      → (f w.db).0 ≡ exec c w.db
      → let a = rows_or_none (call x f w) in Follows w.db (redispatch_all faults (keep a.1) a.0).db
  statement-Follows x c f keep faults w same =
      let a = rows_or_none (call x f w) in
      let told = redispatch_all-db faults (keep a.1) a.0 in
      let made = call-Follows f w x (rw same (Follows-exec c w.db)) in
      Follows-trans _ _ _ made (Follows-same _ _ (told ∙ ap (λ w. w.db) (rows-db (call x f w))))

  pub maintain-Follows : (pass : Pass) (w : World) → Follows w.db (maintain cfg pass w).db
  unfolding maintain reap retry sweep exec
  maintain-Follows pass w =
      let reaped =
        statement-Follows pass.reaping
          (reaps pass.reap_at pass.locked cfg.stale_after maintenance_batch) _ requeued
          pass.dispatching w refl in
      let retried =
        statement-Follows pass.retrying (retries pass.retry_at pass.locked maintenance_batch) _
          (λ rs. rs) pass.dispatching (reap cfg pass w) refl in
      let swept =
        statement-Follows pass.sweeping
          (sweeps pass.sweep_at pass.locked cfg.sweep_after maintenance_batch) _ (λ rs. rs)
          pass.dispatching (retry cfg pass (reap cfg pass w)) refl in
      Follows-trans _ _ _ reaped (Follows-trans _ _ _ retried swept)

  module _ (path : String → ℕ → String) (message : StoreError → String) where
    write_output_file-db :
        (env : Env) (r : Run) (output : String) (w : World)
        → (write_output_file cfg path message env r output w).db ≡ w.db
    unfolding write_output_file
    write_output_file-db env r output w = ground arith

    conclude-err :
        (env : Env) (r : Run) (j : Job) (e : String) (w : World) (c : Option Cause)
        → env.cause ≡ c
        → Follows w.db (conclude cfg path message env r j (err e) w).db
    unfolding conclude fail release
    conclude-err env r j e w none k = rw k (fail-Follows env r e w)
    conclude-err env r j e w (some lost_run) k = rw k (Follows-refl w.db)
    conclude-err env r j e w (some shutdown) k = rw k (release-Follows env r j.type w)
    conclude-err env r j e w (some timeout) k = rw k (fail-Follows env r _ w)

    pub conclude-Follows :
        (env : Env) (r : Run) (j : Job) (outcome : Result String String) (w : World)
        → Follows w.db (conclude cfg path message env r j outcome w).db
    conclude-Follows env r j (err e) w = conclude-err env r j e w env.cause refl
    conclude-Follows env r j (ok output) w =
        unfold conclude in
        Follows-trans _ _ _ (Follows-same _ _ (write_output_file-db env r output w))
          (succeed-Follows env r output (write_output_file cfg path message env r output w))

  module _ (unmarshal : String → Result String Dispatch) (parse_uuid : String → Option ℕ) where
    claimed-db :
        (a : World × Result String (Option Run))
        → (claimed_or_none cfg unmarshal parse_uuid a).0 ≡ a.0
    claimed-db (w, ok r) = refl
    claimed-db (w, err e) = refl

    pub claim-Follows :
        (fault : Fault) (now : ℕ) (value : String) (w : World)
        → Follows w.db (claim cfg unmarshal parse_uuid fault now value w).0.db
    unfolding claim exec
    claim-Follows fault now value w = decoded (decode_dispatch unmarshal value) refl
      where
        named :
            (id : Option ℕ)
            → Follows w.db (claim_named cfg unmarshal parse_uuid fault now id w).0.db
        named none = Follows-refl w.db
        named (some id) =
            Follows-trans _ _ _
              (call-Follows (claim_run now id cfg.id) w fault
                (Follows-exec (claims now id cfg.id) w.db))
              (Follows-same _ _
                (ap (λ w. w.db) (claimed-db (call fault (claim_run now id cfg.id) w))))

        decoded :
            (d : Result String Dispatch)
            → decode_dispatch unmarshal value ≡ d
            → Follows w.db (claim cfg unmarshal parse_uuid fault now value w).0.db
        decoded (err e) k = rw (claim, k) (Follows-refl w.db)
        decoded (ok d) k = rw (claim, k) (named (parse_uuid d.run_id))
