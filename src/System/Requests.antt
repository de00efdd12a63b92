-- ===== src/System/Requests.antt =====
-- A request to the API announces only runs of the table.
use jobsys.Base.{
  ℕ, ◌≡◌, refl, String, Bool, true, false, Option, some, none, arith, Result, ok, err, ◌<>◌,
}
use mathlib.Core.Path.{subst}
use jobsys.Base.Columns.{find-append}
use jobsys.Store.Models.{Run, Job, Db, StoreError, new_run, manual}
use jobsys.Store.Table.{find_run}
use jobsys.Store.Jobs.{get_job}
use jobsys.Store.Runs.{create_manual_run, fail_queued_run, insert_run, has_run}
use jobsys.Store.Follows.{Follows-exec}
use jobsys.Store.History.{exec, fails_queued, triggers}
use jobsys.Worker.Env.{World, Fault, fine, refused, unanswered, dispatch}
use jobsys.Api.{Libraries, query, reading, writing, store_error}
use jobsys.Api.Jobs.{CreateJobRequest, handle_create_job, handle_set_enabled}
use jobsys.Api.Runs.{RunCalls, dispatch_run, notice, error_text, handle_run_job}
use jobsys.Api.Server.{
  Route, healthz, readyz, create_job_at, list_jobs_at, get_job_at, run_job_at, pause_at, resume_at,
  list_runs_at, get_run_at, list_logs_at, stream_logs_at, web, method_not_allowed, Request, Calls,
  decode_json, handle_route, serve_request, route,
}
use jobsys.Api.Server.Safety.{handle_route-world, reads_only}
use jobsys.Api.Server.Writes.{
  query-reading, query-Follows, writing-exec, handle_create_job-Follows, handle_set_enabled-Follows,
}
use jobsys.System.Sound.{IsKnown, IsSound, IsSound-Follows, dispatch-IsSound}
use jobsys.System.Firings.{absent-find}

module _ {ℓ} {A : Type ℓ} where
  query-topic :
      (x : Fault) (f : Db → Db × Result StoreError A) (w : World) → (query x f w).0.topic ≡ w.topic
  unfolding query
  query-topic fine f w = refl
  query-topic (refused e) f w = refl
  query-topic (unanswered e) f w = refl

dispatch_run-IsSound :
    (calls : RunCalls) (j : Job) (r : Run) (w : World)
    → IsSound w
    → IsKnown (notice j r) w.db
    → IsSound (dispatch_run calls j r w).0
unfolding dispatch_run exec
dispatch_run-IsSound calls j r w h k = sent (dispatch calls.dispatching (notice j r) w).1 refl
  where
    told : World
    told = (dispatch calls.dispatching (notice j r) w).0

    told-IsSound : IsSound told
    told-IsSound = dispatch-IsSound calls.dispatching (notice j r) w h k

    reason : String
    reason = "dispatch failed: " <> error_text calls.dispatching

    failing : Db → Db × Result StoreError (Unit {0})
    failing db = (fail_queued_run calls.failed_at r.id reason db, ok tt)

    sent :
        (b : Bool)
        → (dispatch calls.dispatching (notice j r) w).1 ≡ b
        → IsSound (dispatch_run calls j r w).0
    sent true e =
        let same : (dispatch_run calls j r w).0 ≡ told = ground arith in rw same told-IsSound
    sent false e =
        let same : (dispatch_run calls j r w).0 ≡ (query {0} calls.failing failing told).0 =
          ground arith in
        rw same (
          IsSound-Follows told (query {0} calls.failing failing told).0 told-IsSound
            (query-Follows calls.failing failing told
              (Follows-exec (fails_queued calls.failed_at r.id reason) told.db))
            (query-topic calls.failing failing told))

-- A run that was created is in the table.
create_manual_run-IsKnown :
    (id job_id now : ℕ) (j : Job) (db db' : Db) (r : Run)
    → create_manual_run id job_id now db ≡ ok (db', r)
    → IsKnown (notice j r) db'
unfolding create_manual_run find_run insert_run
create_manual_run-IsKnown id job_id now j db db' r e =
    let fresh : has_run id db ≡ false = ground arith in
    let same_run : new_run id job_id now manual now ≡ r = ground arith in
    let same_db : insert_run (new_run id job_id now manual now) db ≡ db' = ground arith in
    let n = new_run id job_id now manual now in
    let here : find_run id (insert_run n db) ≡ some n =
      find-append (λ x. x.id) id db.runs n (absent-find id db.runs fresh) refl in
    let known : IsKnown (notice j n) (insert_run n db) = (n, here, omega arith) in
    subst (λ x. IsKnown (notice j x) db') same_run
      (subst (λ d. IsKnown (notice j n) d) same_db known)

module _ (lib : Libraries) where
  handle_create_job-topic :
      (request : Result String CreateJobRequest) (x : Fault) (now id created_at : ℕ) (w : World)
      → (handle_create_job lib request x now id created_at w).0.topic ≡ w.topic
  unfolding handle_create_job query store_error
  handle_create_job-topic request x now id created_at w = ground arith

  handle_set_enabled-topic :
      (enabled : Bool) (path : String) (x y : Fault) (now updated_at : ℕ) (w : World)
      → (handle_set_enabled lib enabled path x y now updated_at w).0.topic ≡ w.topic
  unfolding handle_set_enabled query store_error
  handle_set_enabled-topic enabled path x y now updated_at w = ground arith

  -- The statement that creates a run, however the call goes.
  module _ (id job_id now : ℕ) (j : Job) (w : World) where
    abbrev create : Db → Db × Result StoreError Run
    create db = writing db (create_manual_run id job_id now db)

    create-IsSound : (x : Fault) → IsSound w → IsSound (query x create w).0
    unfolding exec
    create-IsSound x h =
        IsSound-Follows w (query x create w).0 h
          (query-Follows x create w (
            writing-exec lib (triggers now id job_id) w.db (create_manual_run id job_id now w.db)
              refl))
          (query-topic x create w)

    writing-IsKnown :
        (o : Result StoreError (Db × Run)) (r : Run)
        → create_manual_run id job_id now w.db ≡ o
        → (writing w.db o).1 ≡ ok r
        → IsKnown (notice j r) (writing w.db o).0
    writing-IsKnown (err e) r k a = cc
    writing-IsKnown (ok (db', s)) r k a =
        let same : s ≡ r = ground arith in
        subst (λ y. IsKnown (notice j y) db') same
          (create_manual_run-IsKnown id job_id now j w.db db' s k)

    create-IsKnown :
        (x : Fault) (r : Run)
        → (query x create w).1 ≡ ok r
        → IsKnown (notice j r) (query x create w).0.db
    unfolding query
    create-IsKnown fine r a = writing-IsKnown _ r refl a
    create-IsKnown (refused e) r a = cc
    create-IsKnown (unanswered e) r a = cc

  handle_run_job-IsSound :
      (path : String) (calls : RunCalls) (w : World)
      → IsSound w
      → IsSound (handle_run_job lib path calls w).0
  unfolding handle_run_job store_error
  handle_run_job-IsSound path calls w h = parsed (lib.parse_uuid path) refl
    where
      out : World
      out = (handle_run_job lib path calls w).0

      v : ℕ → World
      v id = (query calls.getting (reading (get_job id)) w).0

      v-IsSound : (id : ℕ) → IsSound (v id)
      v-IsSound id = rw (query-reading calls.getting (get_job id) w) h

      created :
          (id : ℕ) (j : Job) (r : Result StoreError Run)
          → lib.parse_uuid path ≡ some id
          → (query calls.getting (reading (get_job id)) w).1 ≡ ok j
          → (query calls.creating (create calls.id j.id calls.queued_at j (v id)) (v id)).1 ≡ r
          → IsSound out
      created id j (err e) p f a =
          let made =
            create-IsSound calls.id j.id calls.queued_at j (v id) calls.creating (v-IsSound id) in
          let same : out
              ≡ (query calls.creating (create calls.id j.id calls.queued_at j (v id)) (v id)).0 =
            ground arith in
          rw same made
      created id j (ok r) p f a =
          let made =
            create-IsSound calls.id j.id calls.queued_at j (v id) calls.creating (v-IsSound id) in
          let known = create-IsKnown calls.id j.id calls.queued_at j (v id) calls.creating r a in
          let u = (query calls.creating (create calls.id j.id calls.queued_at j (v id)) (v id)).0 in
          let same : out ≡ (dispatch_run calls j r u).0 = ground arith in
          rw same (dispatch_run-IsSound calls j r u made known)

      found :
          (id : ℕ) (j : Result StoreError Job)
          → lib.parse_uuid path ≡ some id
          → (query calls.getting (reading (get_job id)) w).1 ≡ j
          → IsSound out
      found id (err e) p f = let same : out ≡ v id = ground arith in rw same (v-IsSound id)
      found id (ok j) p f = created id j _ p f refl

      parsed : (id : Option ℕ) → lib.parse_uuid path ≡ id → IsSound out
      parsed none p = let same : out ≡ w = ground arith in rw same h
      parsed (some id) p = found id (query calls.getting (reading (get_job id)) w).1 p refl

module _ (lib : Libraries) (decode : ℕ → String → Result String (CreateJobRequest × Bool)) where
  read_only :
      (r : Route) (q : Request) (c : Calls) (w : World)
      → reads_only r ≡ true
      → IsSound w
      → IsSound (handle_route lib decode r q c w).0
  read_only r q c w e h = rw (handle_route-world lib decode r q c w e) h

  handle_route-IsSound :
      (r : Route) (q : Request) (c : Calls) (w : World)
      → IsSound w
      → IsSound (handle_route lib decode r q c w).0
  unfolding handle_route
  handle_route-IsSound create_job_at q c w h =
      IsSound-Follows w _ h
        (handle_create_job-Follows lib (decode_json decode q.body) c.first c.now c.row_id c.row_time
          w)
        (handle_create_job-topic lib (decode_json decode q.body) c.first c.now c.row_id c.row_time
          w)
  handle_route-IsSound (run_job_at id) q c w h = handle_run_job-IsSound lib id c.run_calls w h
  handle_route-IsSound (pause_at id) q c w h =
      IsSound-Follows w _ h
        (handle_set_enabled-Follows lib false id c.first c.second c.now c.row_time w)
        (handle_set_enabled-topic lib false id c.first c.second c.now c.row_time w)
  handle_route-IsSound (resume_at id) q c w h =
      IsSound-Follows w _ h
        (handle_set_enabled-Follows lib true id c.first c.second c.now c.row_time w)
        (handle_set_enabled-topic lib true id c.first c.second c.now c.row_time w)
  handle_route-IsSound healthz q c w h = h
  handle_route-IsSound readyz q c w h = h
  handle_route-IsSound list_jobs_at q c w h = read_only list_jobs_at q c w refl h
  handle_route-IsSound (get_job_at id) q c w h = read_only (get_job_at id) q c w refl h
  handle_route-IsSound list_runs_at q c w h = read_only list_runs_at q c w refl h
  handle_route-IsSound (get_run_at id) q c w h = read_only (get_run_at id) q c w refl h
  handle_route-IsSound (list_logs_at id) q c w h = read_only (list_logs_at id) q c w refl h
  handle_route-IsSound (stream_logs_at id) q c w h = h
  handle_route-IsSound web q c w h = h
  handle_route-IsSound method_not_allowed q c w h = h

  pub serve_request-IsSound :
      (q : Request) (c : Calls) (w : World) → IsSound w → IsSound (serve_request lib decode q c w).0
  unfolding serve_request
  serve_request-IsSound q c w h = handle_route-IsSound (route q.method q.path) q c w h
