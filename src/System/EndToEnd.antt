-- ===== src/System/EndToEnd.antt =====
-- A run from POST /jobs/{id}/run over the topic to a worker, and back to GET /runs/{id}.
use jobsys.Base.{
  ℕ, ◌≡◌, refl, sym, ap, ◌∙◌, String, true, false, Option, none, some, [], ◌∷◌, Result, ok, err,
  arith, text_eq,
}
use jobsys.Base.Columns.{find-append, find-present}
use jobsys.Queue.{Dispatch, decode_dispatch, dispatch_message, decode_dispatch-dispatch_message}
use jobsys.Store.Models.{Job, Run, StoreError, new_run, manual, succeeded}
use jobsys.Store.Table.{find_job, find_run, update}
use jobsys.Store.Runs.{insert_run, has_occurrence, get_run}
use jobsys.Store.Jobs.{or_not_found}
use jobsys.Store.Worker.{claim_run, claimed, finished}
use jobsys.Store.Claims.{claim_run_lem, is_owner}
use jobsys.Store.Histories.{IsValid, exec_all-IsValid}
use jobsys.Store.History.{triggers, claims, after, exec, exec_all}
use jobsys.Job.Payload.{
  GenerateText, IsPayload, parse_generate_text, validate, validate-IsPayload, checked,
}
use jobsys.Job.Results.{quiet, promised, generate_text-promised}
use jobsys.Job.Generate as Generate
use jobsys.Worker.Env.{Config, World, fine, call}
use jobsys.Worker.Execute.{Env, claim, execute}
use jobsys.Worker.Settles.{execute-settles}
use jobsys.Api.{Libraries}
use jobsys.Api.Runs.{handle_run_job}
use jobsys.Api.Dispatching.{handle_run_job-fine, created-run, calls}

-- job.Run, in a context that nobody cancels.
abbrev pub run_quietly : Libraries → Job → ℕ → Result String String
run_quietly lib j attempt = (Generate.run lib.decode lib.quote quiet j.type j.payload attempt).0

module _ (decode : String → Result String GenerateText) (quote : String → String) where
  parsed-IsPayload :
      (payload : String) (p : GenerateText)
      → parse_generate_text decode payload ≡ ok p
      → IsPayload p
  unfolding parse_generate_text
  parsed-IsPayload payload p h = decoded (decode payload) refl
    where
      validated :
          (q : GenerateText) (e : Option String)
          → validate q ≡ e
          → checked decode q e ≡ ok p
          → IsPayload p
      validated q none k fine_h =
          let same : q ≡ p = ground arith in (validate-IsPayload p).0 (rw same at k)
      validated q (some e) k fine_h = cc

      decoded : (d : Result String GenerateText) → decode payload ≡ d → IsPayload p
      decoded (err e) k = let h' = rw (parse_generate_text, k) at h in cc
      decoded (ok q) k =
          let h' = rw (parse_generate_text, k) at h in validated q (validate q) refl h'

  -- An uncancelled attempt of a job whose payload parses does what the payload asks.
  run-promised :
      (payload : String) (p : GenerateText) (attempt : ℕ)
      → parse_generate_text decode payload ≡ ok p
      → (Generate.run decode quote quiet "generate_text" payload attempt).0 ≡ promised p attempt
  unfolding Generate.run
  run-promised payload p attempt h =
      rw h (generate_text-promised p attempt (parsed-IsPayload payload p h))

-- A message that names a run, with a database that answers.
claim-decoded :
    (cfg : Config) (unmarshal : String → Result String Dispatch) (parse_uuid : String → Option ℕ)
    (now : ℕ) (value : String) (w : World) (d : Dispatch) (id : ℕ)
    → decode_dispatch unmarshal value ≡ ok d
    → parse_uuid d.run_id ≡ some id
    → claim cfg unmarshal parse_uuid fine now value w
      ≡ (record w { db = (claim_run now id cfg.id w.db).0 }, (claim_run now id cfg.id w.db).1)
unfolding claim call
claim-decoded cfg unmarshal parse_uuid now value w d id decoded named =
    rw (claim, decoded, named) refl

-- encoding/json undoes itself on dispatch messages, an id has a text, and its text reads as the id.
module _ (lib : Libraries) (cfg : Config) (marshal : Dispatch → String)
    (unmarshal : String → Result String Dispatch) (uuid : ℕ → String)
    (parse_uuid : String → Option ℕ) (undo : (d : Dispatch) → unmarshal (marshal d) ≡ ok d)
    (named : (id : ℕ) → text_eq (uuid id) "" ≡ false)
    (read_id : (id : ℕ) → parse_uuid (uuid id) ≡ some id) (path : String) (w : World) (id : ℕ)
    (j : Job) (new_id queued_at failed_at claimed_at : ℕ) (valid : IsValid w.db)
    (parsed : lib.parse_uuid path ≡ some id) (found : find_job id w.db ≡ some j)
    (fresh : find_run new_id w.db ≡ none)
    (apart : has_occurrence (j.id, queued_at) w.db ≡ false) where
  abbrev pub queued_run : Run
  queued_run = new_run new_id j.id queued_at manual queued_at

  abbrev pub claimed_run : Run
  claimed_run = claimed claimed_at cfg.id queued_run

  -- The world once the request is answered, and the message that its notice is.
  abbrev pub triggered : World
  triggered = (handle_run_job lib path (calls lib path w id j new_id queued_at failed_at fine) w).0

  abbrev pub value : String
  value =
      (dispatch_message marshal uuid queued_run.id queued_run.job_id queued_run.attempt
        j.type).value

  -- The worker's answer to the message.
  abbrev pub taken : World × Option Run
  taken = claim cfg unmarshal parse_uuid fine claimed_at value triggered

  triggered-db : triggered.db ≡ insert_run queued_run w.db
  triggered-db =
      ap (λ x. x.0.db)
        (handle_run_job-fine lib path w id j new_id queued_at failed_at parsed found fresh apart)

  triggered-IsValid : IsValid triggered.db
  unfolding exec exec_all
  triggered-IsValid =
      let made = created-run lib path w id j new_id queued_at failed_at found fresh apart in
      let v = exec_all-IsValid (triggers queued_at new_id j.id ∷ []) w.db valid in
      let same : exec_all (triggers queued_at new_id j.id ∷ []) w.db ≡ triggered.db =
        ap (λ a. after w.db a λ r. r.0) made ∙ sym triggered-db in
      rw same at v

  triggered-find : find_run new_id triggered.db ≡ some queued_run
  unfolding find_run insert_run
  triggered-find =
      ap (find_run new_id) triggered-db
      ∙ find-append (λ r. r.id) new_id w.db.runs queued_run fresh refl

  claim-named : taken ≡ (
    record triggered { db = (claim_run claimed_at new_id cfg.id triggered.db).0 },
    some claimed_run,
  )
  claim-named =
      let decoded =
        decode_dispatch-dispatch_message marshal uuid unmarshal undo named queued_run.id
          queued_run.job_id queued_run.attempt j.type in
      let (answer, _) =
        claim_run_lem new_id triggered.db queued_run triggered-IsValid.keyed triggered-find
          claimed_at cfg.id in
      claim-decoded cfg unmarshal parse_uuid claimed_at value triggered _ new_id decoded
        (read_id new_id)
      ∙ ap (λ a. (record triggered { db = (claim_run claimed_at new_id cfg.id triggered.db).0 }, a))
          answer

  pub taken-db : taken.0.db ≡ (claim_run claimed_at new_id cfg.id (insert_run queued_run w.db)).0
  taken-db =
      ap (λ x. x.0.db) claim-named
      ∙ ap (λ db. (claim_run claimed_at new_id cfg.id db).0) triggered-db

  taken-IsValid : IsValid taken.0.db
  unfolding exec exec_all
  taken-IsValid =
      rw claim-named
        (exec_all-IsValid (claims claimed_at new_id cfg.id ∷ []) triggered.db triggered-IsValid)

  taken-job : find_job j.id taken.0.db ≡ some j
  unfolding find_job claim_run update insert_run
  taken-job =
      let same : j.id ≡ id = (find-present (λ x. x.id) id w.db.jobs j found).0 in
      let kept : find_job j.id taken.0.db ≡ find_job j.id w.db =
        rw (claim-named, triggered-db) refl in
      kept ∙ ap (λ i. find_job i w.db) same ∙ found

  -- A job whose payload parses and asks for a text is triggered by POST /jobs/{id}/run. The worker that
  -- reads the message, published for it, claims the run; and if it still owns the attempt when the job
  -- is done, with a database that answers, then GET /runs/{id} finds the run SUCCEEDED with that text
  -- as its output.
  pub triggered-succeeded :
      (p : GenerateText) (text : String) (file_path : String → ℕ → String)
      (message : StoreError → String) (env : Env) (r : Run) (last : Job)
      → j.type ≡ "generate_text"
      → parse_generate_text lib.decode j.payload ≡ ok p
      → promised p 1 ≡ ok text
      → env.loading ≡ fine
      → env.ending ≡ fine
      → let middle = exec_all env.meanwhile taken.0.db in
        find_run new_id middle ≡ some r
        → find_job r.job_id middle ≡ some last
        → is_owner cfg.id 1 r ≡ true
        → let w' = execute cfg file_path message env claimed_run (run_quietly lib) taken.0 in
          (taken.1 ≡ some claimed_run)
          × ((s : Run) × (get_run new_id w'.db ≡ ok s)
              × (s.status ≡ succeeded)
              × (s.output ≡ some text))
  unfolding get_run
  triggered-succeeded p text file_path message env r last typed payload asked loading ending there
        job own =
      let done =
        execute-settles cfg file_path message env claimed_run (run_quietly lib) taken.0 r j last
          taken-IsValid loading ending taken-job there job own in
      let outcome : run_quietly lib j 1 ≡ ok text =
        ap (λ t. (Generate.run lib.decode lib.quote quiet t j.payload 1).0) typed
        ∙ run-promised lib.decode lib.quote j.payload p 1 payload
        ∙ asked in
      let row = rw outcome at done in
      (
        ap (λ x. x.1) claim-named,
        (finished env.ended_at succeeded (some text) none r, ap or_not_found row, refl, refl),
      )
