-- ===== src/Api/Server/Writes.antt =====
-- The handlers that write: what they do to the tables is a history of the store's calls.
use jobsys.Base.{
  ℕ, ◌≡◌, refl, ap, ◌∙◌, String, Bool, true, false, Option, none, some, Result, ok, err, ◌<>◌,
  arith,
}
use jobsys.Store.Models.{Db, StoreError, Job, Run, NewJob}
use jobsys.Store.Follows.{Follows, Follows-refl, Follows-exec, Follows-trans, Follows-same}
use jobsys.Store.Jobs.{create_job, set_job_enabled, get_job}
use jobsys.Store.Runs.{create_manual_run, fail_queued_run}
use jobsys.Store.History.{Call, exec, after, creates_job, sets_enabled, triggers, fails_queued}
use jobsys.Worker.Pool.Worlds.{dispatch-db}
use jobsys.Worker.Env.{World, Fault, fine, refused, unanswered, dispatch}
use jobsys.Api.{Libraries, query, reading, writing, store_error}
use jobsys.Api.Jobs.{CreateJobRequest, new_job, resumed, handle_create_job, handle_set_enabled}
use jobsys.Api.Runs.{RunCalls, dispatch_run, notice, error_text, handle_run_job}

module _ {ℓ} {A : Type ℓ} where
  pub query-reading :
      (x : Fault) (f : Db → Result StoreError A) (w : World) → (query x (reading f) w).0 ≡ w
  unfolding query
  query-reading fine f w = refl
  query-reading (refused e) f w = refl
  query-reading (unanswered e) f w = refl

  pub query-Follows :
      (x : Fault) (f : Db → Db × Result StoreError A) (w : World)
      → Follows w.db (f w.db).0
      → Follows w.db (query x f w).0.db
  unfolding query
  query-Follows fine f w h = h
  query-Follows (refused e) f w h = Follows-refl w.db
  query-Follows (unanswered e) f w h = h

dispatch_run-Follows :
    (calls : RunCalls) (j : Job) (r : Run) (w : World)
    → Follows w.db (dispatch_run calls j r w).0.db
unfolding dispatch_run exec
dispatch_run-Follows calls j r w = sent (dispatch calls.dispatching (notice j r) w).1 refl
  where
    told : World
    told = (dispatch calls.dispatching (notice j r) w).0

    reason : String
    reason = "dispatch failed: " <> error_text calls.dispatching

    kept : told.db ≡ w.db
    kept = dispatch-db calls.dispatching (notice j r) w

    failing : Db → Db × Result StoreError (Unit {0})
    failing db = (fail_queued_run calls.failed_at r.id reason db, ok tt)

    sent :
        (b : Bool)
        → (dispatch calls.dispatching (notice j r) w).1 ≡ b
        → Follows w.db (dispatch_run calls j r w).0.db
    sent true k =
        let same : (dispatch_run calls j r w).0 ≡ told = ground arith in
        Follows-same _ _ (ap (λ w. w.db) same ∙ kept)
    sent false k =
        let same : (dispatch_run calls j r w).0 ≡ (query {0} calls.failing failing told).0 =
          ground arith in
        let done =
          query-Follows calls.failing failing told
            (Follows-exec (fails_queued calls.failed_at r.id reason) told.db) in
        Follows-trans _ _ _ (Follows-same _ _ kept)
          (Follows-trans _ _ _ done (Follows-same _ _ (ap (λ w. w.db) same)))

module _ (lib : Libraries) where
  pub writing-exec :
      {A : Type 0} (c : Call) (db : Db) (r : Result StoreError (Db × A))
      → exec c db ≡ after db r (λ x. x.0)
      → Follows db (writing db r).0
  writing-exec c db (ok (d, a)) e = rw⁻¹ e (Follows-exec c db)
  writing-exec c db (err x) e = Follows-refl db

  pub handle_create_job-Follows :
      (request : Result String CreateJobRequest) (x : Fault) (now id created_at : ℕ) (w : World)
      → Follows w.db (handle_create_job lib request x now id created_at w).0.db
  unfolding handle_create_job exec store_error
  handle_create_job-Follows (err e) x now id created_at w = Follows-refl w.db
  handle_create_job-Follows (ok req) x now id created_at w = made (new_job lib now req) refl
    where
      made :
          (n : Result String NewJob)
          → new_job lib now req ≡ n
          → Follows w.db (handle_create_job lib (ok req) x now id created_at w).0.db
      made (err e) k = rw (handle_create_job, k) (Follows-refl w.db)
      made (ok n) k =
          let create : Db → Db × Result StoreError Job =
            λ db. writing db (create_job id created_at n db) in
          let done = query-Follows x create w (
            writing-exec (creates_job created_at id n) w.db (create_job id created_at n w.db)
              refl) in
          let same : (handle_create_job lib (ok req) x now id created_at w).0
              ≡ (query x create w).0 =
            ground arith in
          Follows-trans _ _ _ done (Follows-same _ _ (ap (λ w. w.db) same))

  pub handle_set_enabled-Follows :
      (enabled : Bool) (path : String) (x y : Fault) (now updated_at : ℕ) (w : World)
      → Follows w.db (handle_set_enabled lib enabled path x y now updated_at w).0.db
  unfolding handle_set_enabled exec store_error
  handle_set_enabled-Follows enabled path x y now updated_at w = parsed (lib.parse_uuid path) refl
    where
      out : World
      out = (handle_set_enabled lib enabled path x y now updated_at w).0

      resuming :
          (id : ℕ) (j : Job) (next : Result String (Option ℕ))
          → lib.parse_uuid path ≡ some id
          → (query x (reading (get_job id)) w).1 ≡ ok j
          → resumed lib enabled now j ≡ next
          → Follows w.db out.db
      resuming id j (err e) p f n =
          let same : out ≡ (query x (reading (get_job id)) w).0 = ground arith in
          Follows-same _ _ (ap (λ w. w.db) (same ∙ query-reading x (get_job id) w))
      resuming id j (ok next) p f n =
          let set = set_job_enabled updated_at id enabled next in
          let same : out ≡ (query y set (query x (reading (get_job id)) w).0).0 = ground arith in
          let read = query-reading x (get_job id) w in
          let done =
            query-Follows y set w (Follows-exec (sets_enabled updated_at id enabled next) w.db) in
          Follows-trans _ _ _ done
            (Follows-same _ _ (ap (λ w. w.db) (same ∙ ap (λ v. (query y set v).0) read)))

      found :
          (id : ℕ) (j : Result StoreError Job)
          → lib.parse_uuid path ≡ some id
          → (query x (reading (get_job id)) w).1 ≡ j
          → Follows w.db out.db
      found id (err e) p f =
          let same : out ≡ (query x (reading (get_job id)) w).0 = ground arith in
          Follows-same _ _ (ap (λ w. w.db) (same ∙ query-reading x (get_job id) w))
      found id (ok j) p f = resuming id j (resumed lib enabled now j) p f refl

      parsed : (id : Option ℕ) → lib.parse_uuid path ≡ id → Follows w.db out.db
      parsed none p = let same : out ≡ w = ground arith in Follows-same _ _ (ap (λ w. w.db) same)
      parsed (some id) p = found id (query x (reading (get_job id)) w).1 p refl

  pub handle_run_job-Follows :
      (path : String) (calls : RunCalls) (w : World)
      → Follows w.db (handle_run_job lib path calls w).0.db
  unfolding handle_run_job exec store_error
  handle_run_job-Follows path calls w = parsed (lib.parse_uuid path) refl
    where
      out : World
      out = (handle_run_job lib path calls w).0

      create : Job → Db → Db × Result StoreError Run
      create j db = writing db (create_manual_run calls.id j.id calls.queued_at db)

      created :
          (id : ℕ) (j : Job) (r : Result StoreError Run)
          → lib.parse_uuid path ≡ some id
          → (query calls.getting (reading (get_job id)) w).1 ≡ ok j
          → (query calls.creating (create j) (query calls.getting (reading (get_job id)) w).0).1 ≡ r
          → Follows w.db out.db
      created id j r p f a =
          let v = (query calls.getting (reading (get_job id)) w).0 in
          let read = query-reading calls.getting (get_job id) w in
          let made : Follows v.db (query calls.creating (create j) v).0.db =
            query-Follows calls.creating (create j) v (
              writing-exec (triggers calls.queued_at calls.id j.id) v.db
                (create_manual_run calls.id j.id calls.queued_at v.db) refl) in
          let start : Follows w.db (query calls.creating (create j) v).0.db =
            Follows-trans _ _ _ (Follows-same _ _ (ap (λ w. w.db) read)) made in
          Follows-trans _ _ _ start (ending r a)
        where
          ending :
              (r : Result StoreError Run)
              → (query calls.creating (create j) (query calls.getting (reading (get_job id)) w).0).1
                ≡ r
              → Follows
                  (query calls.creating
                    (create j)
                    (query calls.getting (reading (get_job id)) w).0).0.db
                  out.db
          ending (err e) k =
              let same : out
                  ≡ (query calls.creating (create j)
                      (query calls.getting (reading (get_job id)) w).0).0 =
                ground arith in
              Follows-same _ _ (ap (λ w. w.db) same)
          ending (ok r) k =
              let v =
                (query calls.creating (create j)
                  (query calls.getting (reading (get_job id)) w).0).0 in
              let same : out ≡ (dispatch_run calls j r v).0 = ground arith in
              Follows-trans _ _ _ (dispatch_run-Follows calls j r v)
                (Follows-same _ _ (ap (λ w. w.db) same))

      found :
          (id : ℕ) (j : Result StoreError Job)
          → lib.parse_uuid path ≡ some id
          → (query calls.getting (reading (get_job id)) w).1 ≡ j
          → Follows w.db out.db
      found id (err e) p f =
          let same : out ≡ (query calls.getting (reading (get_job id)) w).0 = ground arith in
          Follows-same _ _ (ap (λ w. w.db) (same ∙ query-reading calls.getting (get_job id) w))
      found id (ok j) p f = created id j _ p f refl

      parsed : (id : Option ℕ) → lib.parse_uuid path ≡ id → Follows w.db out.db
      parsed none p = let same : out ≡ w = ground arith in Follows-same _ _ (ap (λ w. w.db) same)
      parsed (some id) p = found id (query calls.getting (reading (get_job id)) w).1 p refl
