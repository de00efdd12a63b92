-- ===== src/System/Attempts.antt =====
-- The worker's claims and the ends of its attempts announce only runs of the table.
use jobsys.Base.{
  ℕ, ◌+◌, ◌≤◌, ◌≡◌, refl, ◌∙◌, String, Bool, true, false, Option, none, some, [], Result, ok, err,
  arith, ◌<>◌,
}
use jobsys.Queue.{Dispatch, decode_dispatch}
use jobsys.Store.Models.{Run, Job, Db, StoreError}
use jobsys.Store.Table.{find_run, updated}
use jobsys.Store.Claims.{is_owner, write_owned_lem}
use jobsys.Store.Worker.{released, release_run, write_owned, claim_run, owns}
use jobsys.Store.Follows.{Follows-exec}
use jobsys.Store.History.{exec, releases}
use jobsys.Store.Histories.{IsValid}
use jobsys.Worker.Env.{Config, World, Notice, Fault, fine, refused, unanswered, call}
use jobsys.Worker.Execute.{
  Env, Cause, lost_run, shutdown, timeout, announce, fail, succeed, release, write_output_file,
  conclude, claim, claim_named, claimed_or_none,
}
use jobsys.Worker.Pool.Begun.{updated-absent}
use jobsys.Worker.Pool.Worlds.{fail-Follows, conclude-Follows, claim-Follows}
use jobsys.System.Sound.{
  IsKnown, IsSound, IsSound-Follows, dispatch-IsSound, call-IsSound, call-topic,
}

write_owned-absent :
    (id : ℕ) (worker : String) (attempt : ℕ) (f : Run → Run) (db : Db)
    → find_run id db ≡ none
    → (write_owned id worker attempt f db).1 ≡ false
unfolding write_owned find_run
write_owned-absent id worker attempt f db e =
    let nothing : updated (owns id worker attempt) f db ≡ [] =
      updated-absent id (is_owner worker attempt) f db.runs db.jobs db.logs e in
    rw nothing refl

module _ (cfg : Config) where
  -- What a release announces.
  abbrev next_notice : Run → String → Notice
  next_notice run job_type = record {
    run_id = run.id;
    job_id = run.job_id;
    job_type = job_type;
    attempt = run.attempt + 1;
  }

  -- A release that the database confirmed has moved the row to the next attempt.
  release_run-IsKnown :
      (now : ℕ) (run : Run) (job_type reason : String) (db : Db)
      → IsValid db
      → (release_run now run.id cfg.id run.attempt reason db).1 ≡ true
      → IsKnown (next_notice run job_type) (release_run now run.id cfg.id run.attempt reason db).0
  unfolding release_run
  release_run-IsKnown now run job_type reason db v answer = looked (find_run run.id db) refl
    where
      f : Run → Run
      f = released now reason

      looked :
          (found : Option Run)
          → find_run run.id db ≡ found
          → IsKnown
              (next_notice run job_type)
              (write_owned run.id cfg.id run.attempt (released now reason) db).0
      looked none e = let nothing = write_owned-absent run.id cfg.id run.attempt f db e in cc
      looked (some r) e =
          let (told, left) =
            write_owned_lem run.id db r v.keyed e cfg.id run.attempt f (λ x. refl) in
          let own : is_owner cfg.id run.attempt r ≡ true = ground arith in
          let low : run.attempt + 1 ≤ r.attempt + 1 = ground arith in (f r, rw own at left, low)

  announce-IsSound :
      (env : Env) (run : Run) (job_type : String) (a : World × Result String Bool)
      → IsSound a.0
      → (a.1 ≡ ok true → IsKnown (next_notice run job_type) a.0.db)
      → IsSound (announce cfg env run job_type a)
  announce-IsSound env run job_type (w, ok true) h k =
      dispatch-IsSound env.dispatching (next_notice run job_type) w h (k refl)
  announce-IsSound env run job_type (w, ok false) h k = h
  announce-IsSound env run job_type (w, err e) h k = h

  -- Only a call that went through answers.
  call-IsKnown :
      (x : Fault) (f : Db → Db × Bool) (n : Notice) (w : World)
      → ((f w.db).1 ≡ true → IsKnown n (f w.db).0)
      → (call x f w).1 ≡ ok true
      → IsKnown n (call x f w).0.db
  unfolding call
  call-IsKnown fine f n w k a = k (ground arith)
  call-IsKnown (refused e) f n w k a = cc
  call-IsKnown (unanswered e) f n w k a = cc

  release-IsSound :
      (env : Env) (run : Run) (job_type : String) (w : World)
      → IsSound w
      → IsSound (release cfg env run job_type w)
  unfolding release exec
  release-IsSound env run job_type w h =
      let reason = "released by " <> cfg.id <> " shutting down" in
      let f = release_run env.ended_at run.id cfg.id run.attempt reason in
      announce-IsSound env run job_type (call env.ending f w)
        (call-IsSound env.ending f w h
          (Follows-exec (releases env.ended_at run.id cfg.id run.attempt reason) w.db))
        (call-IsKnown env.ending f (next_notice run job_type) w
          (release_run-IsKnown env.ended_at run job_type reason w.db h.valid))

  pub fail-IsSound :
      (env : Env) (run : Run) (why : String) (w : World)
      → IsSound w
      → IsSound (fail cfg env run why w)
  fail-IsSound env run why w h =
      IsSound-Follows w _ h (fail-Follows cfg env run why w)
        (unfold fail in call-topic env.ending _ w)

  module _ (path : String → ℕ → String) (message : StoreError → String) where
    succeeded-topic :
        (env : Env) (run : Run) (j : Job) (output : String) (w : World)
        → (conclude cfg path message env run j (ok output) w).topic ≡ w.topic
    unfolding conclude succeed write_output_file call
    succeeded-topic env run j output w = ground arith

    failed-IsSound :
        (env : Env) (run : Run) (j : Job) (e : String) (w : World) (c : Option Cause)
        → env.cause ≡ c
        → IsSound w
        → IsSound (conclude cfg path message env run j (err e) w)
    unfolding conclude fail release
    failed-IsSound env run j e w none k h = rw k (fail-IsSound env run e w h)
    failed-IsSound env run j e w (some lost_run) k h = rw k h
    failed-IsSound env run j e w (some shutdown) k h = rw k (release-IsSound env run j.type w h)
    failed-IsSound env run j e w (some timeout) k h = rw k (fail-IsSound env run _ w h)

    pub conclude-IsSound :
        (env : Env) (run : Run) (j : Job) (outcome : Result String String) (w : World)
        → IsSound w
        → IsSound (conclude cfg path message env run j outcome w)
    conclude-IsSound env run j (err e) w h = failed-IsSound env run j e w env.cause refl h
    conclude-IsSound env run j (ok output) w h =
        IsSound-Follows w _ h (conclude-Follows cfg path message env run j (ok output) w)
          (succeeded-topic env run j output w)

  module _ (unmarshal : String → Result String Dispatch) (parse_uuid : String → Option ℕ) where
    claimed_or_none-topic :
        (a : World × Result String (Option Run))
        → (claimed_or_none cfg unmarshal parse_uuid a).0.topic ≡ a.0.topic
    claimed_or_none-topic (w, ok r) = refl
    claimed_or_none-topic (w, err e) = refl

    claim_named-topic :
        (fault : Fault) (now : ℕ) (id : Option ℕ) (w : World)
        → (claim_named cfg unmarshal parse_uuid fault now id w).0.topic ≡ w.topic
    claim_named-topic fault now none w = refl
    claim_named-topic fault now (some id) w =
        claimed_or_none-topic (call fault (claim_run now id cfg.id) w) ∙ call-topic fault _ w

    pub claim-IsSound :
        (fault : Fault) (now : ℕ) (value : String) (w : World)
        → IsSound w
        → IsSound (claim cfg unmarshal parse_uuid fault now value w).0
    unfolding claim
    claim-IsSound fault now value w h =
        IsSound-Follows w _ h (claim-Follows cfg unmarshal parse_uuid fault now value w)
          (decoded (decode_dispatch unmarshal value) refl)
      where
        decoded :
            (d : Result String Dispatch)
            → decode_dispatch unmarshal value ≡ d
            → (claim cfg unmarshal parse_uuid fault now value w).0.topic ≡ w.topic
        decoded (err e) k = rw (claim, k) refl
        decoded (ok d) k = rw (claim, k) (claim_named-topic fault now (parse_uuid d.run_id) w)
