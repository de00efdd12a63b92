-- ===== src/Api/Dispatching.antt =====
-- What handleRunJob of internal/api/handlers.go leaves behind.
use jobsys.Base.{
  ℕ, ◌≡◌, refl, ap, ◌∙◌, String, true, false, ◌<>◌, none, some, List, [], ◌∷◌, ◌++◌, if◌then◌else◌,
  ok, arith, ◌==◌, ◌&&◌,
}
use jobsys.Base.Columns.{find-absent, find-present, find-append, find-map-append}
use jobsys.Store.Models.{Job, Run, new_run, manual, is_queued}
use jobsys.Store.Table.{find_job, find_run, update}
use jobsys.Store.Jobs.{get_job}
use jobsys.Store.Runs.{
  create_manual_run, fail_queued_run, undispatched, has_occurrence, has_job, insert_run,
}
use jobsys.Worker.Env.{World, Notice, Fault, fine, refused, unanswered, dispatch}
use jobsys.Api.{Libraries, Response, query, a_run}
use jobsys.Api.Runs.{RunCalls, handle_run_job, dispatch_run, notice}

-- The run as the handler leaves it, its answer and what it has announced, by how the dispatch went.
abbrev pub left : Fault → ℕ → Run → Run
left fine at r = r
left (refused e) at r = undispatched at ("dispatch failed: " <> e) r
left (unanswered e) at r = undispatched at ("dispatch failed: " <> e) r

abbrev pub answered : Fault → ℕ
answered fine = 202
answered (refused e) = 502
answered (unanswered e) = 502

abbrev pub announced : Fault → List Notice → Notice → List Notice
announced fine ns n = ns ++ n ∷ []
announced (refused e) ns n = ns
announced (unanswered e) ns n = ns ++ n ∷ []

module _ (lib : Libraries) (path : String) (w : World) (id : ℕ) (j : Job)
    (new_id queued_at failed_at : ℕ) where
  abbrev pub calls : Fault → RunCalls
  calls f = record {
    getting = fine;
    creating = fine;
    dispatching = f;
    failing = fine;
    id = new_id;
    queued_at = queued_at;
    failed_at = failed_at;
  }

  abbrev pub run : Run
  run = new_run new_id j.id queued_at manual queued_at

  pub created-run :
      find_job id w.db ≡ some j
      → find_run new_id w.db ≡ none
      → has_occurrence (j.id, queued_at) w.db ≡ false
      → create_manual_run new_id j.id queued_at w.db ≡ ok (insert_run run w.db, run)
  unfolding create_manual_run find_job find_run
  created-run found fresh apart =
      let new = find-absent (λ r. r.id) new_id w.db.runs fresh in
      let known = (find-present (λ x. x.id) id w.db.jobs j found) in
      let same : j.id ≡ id = known.0 in
      let there : has_job j.id w.db ≡ true = rw same known.1 in rw (new, apart, there) refl

  abbrev after_insert : World
  after_insert = record w { db = insert_run run w.db }

  failed-run :
      (reason : String)
      → find_run new_id w.db ≡ none
      → find_run new_id (fail_queued_run failed_at new_id reason (insert_run run w.db))
        ≡ some (undispatched failed_at reason run)
  unfolding fail_queued_run update find_run insert_run
  failed-run reason fresh =
      find-map-append (λ r. r.id) new_id fail w.db.runs run same fresh refl ∙ ap some here
    where
      fail : Run → Run
      fail r = if r.id == new_id && is_queued r.status then undispatched failed_at reason r else r

      same : (r : Run) → (fail r).id ≡ r.id
      same r = ground arith

      here : fail run ≡ undispatched failed_at reason run
      here = ground arith

  -- The answer, the run and the topic that a dispatch leaves behind.
  abbrev Settled : Fault → World × Response → Type 0
  Settled f (after, answer) =
      (answer.status ≡ answered f)
      × ((find_run new_id after.db ≡ some (left f failed_at run))
          × (after.topic ≡ announced f w.topic (notice j run)))

  dispatched-Settled :
      (f : Fault)
      → find_run new_id w.db ≡ none
      → Settled f (dispatch_run (calls f) j run after_insert)
  unfolding dispatch_run dispatch query find_run insert_run
  dispatched-Settled fine fresh =
      (refl, (find-append (λ r. r.id) new_id w.db.runs run fresh refl, refl))
  dispatched-Settled (refused x) fresh = (refl, (failed-run ("dispatch failed: " <> x) fresh, refl))
  dispatched-Settled (unanswered x) fresh =
      (refl, (failed-run ("dispatch failed: " <> x) fresh, refl))

  handled :
      (f : Fault)
      → lib.parse_uuid path ≡ some id
      → find_job id w.db ≡ some j
      → create_manual_run new_id j.id queued_at w.db ≡ ok (insert_run run w.db, run)
      → handle_run_job lib path (calls f) w ≡ dispatch_run (calls f) j run after_insert
  unfolding handle_run_job query get_job
  handled f parsed found made = cc

  -- POST /jobs/{id}/run for a job that exists, under a new id and at a time that no run of the job
  -- has, with a database that answers: if the broker acknowledges, the answer is 202, the run is
  -- QUEUED and it is announced; if not, the answer is 502 and the run is FAILED with the broker's
  -- error; it is announced then too, if the broker took the message and its answer was lost.
  pub handle_run_job-dispatch_run :
      (f : Fault)
      → lib.parse_uuid path ≡ some id
      → find_job id w.db ≡ some j
      → find_run new_id w.db ≡ none
      → has_occurrence (j.id, queued_at) w.db ≡ false
      → let out = handle_run_job lib path (calls f) w in
        (out.1.status ≡ answered f)
        × ((find_run new_id out.0.db ≡ some (left f failed_at run))
            × (out.0.topic ≡ announced f w.topic (notice j run)))
  handle_run_job-dispatch_run f parsed found fresh apart =
      rw (handled f parsed found (created-run found fresh apart)) (dispatched-Settled f fresh)

  -- With a broker that takes the message, the tables have the new run and the topic its notice.
  pub handle_run_job-fine :
      lib.parse_uuid path ≡ some id
      → find_job id w.db ≡ some j
      → find_run new_id w.db ≡ none
      → has_occurrence (j.id, queued_at) w.db ≡ false
      → handle_run_job lib path (calls fine) w ≡ (
        record w { db = insert_run run w.db; topic = w.topic ++ notice j run ∷ [] },
        record { status = 202; body = a_run run },
      )
  unfolding dispatch_run dispatch
  handle_run_job-fine parsed found fresh apart =
      handled fine parsed found (created-run found fresh apart)
