-- ===== src/Queue.antt =====
-- internal/queue/queue.go: the messages on the dispatch topic. encoding/json is a parameter.
use jobsys.Base.{
  ℕ, Option, none, some, List, [], ◌∷◌, String, false, Result, ok, err, ◌<>◌, text_eq,
  if◌then◌else◌, ◌≡◌, refl,
}
pub mod Publisher

-- Ids are the canonical texts of uuids.
pub record Dispatch : Type 0 where
  pub run_id : String
  pub job_id : String
  pub job_type : String
  pub attempt : ℕ

module _ (unmarshal : String → Result String Dispatch) where
  unfoldable pub decode_dispatch : String → Result String Dispatch
  decode_dispatch b = elim (unmarshal b) [
    | err e ↦ err ("decode dispatch: " <> e)
    | ok d ↦ if text_eq d.run_id "" then err "decode dispatch: missing run_id" else ok d
  ]

-- A message for Kafka: the run's id is its key.
pub record Message : Type 0 where
  pub key : String
  pub value : String

module _ (marshal : Dispatch → String) (uuid : ℕ → String) where
  unfoldable pub dispatch_message : ℕ → ℕ → ℕ → String → Message
  dispatch_message run_id job_id attempt job_type = record {
    key = uuid run_id;
    value = marshal (record {
      run_id = uuid run_id;
      job_id = uuid job_id;
      job_type = job_type;
      attempt = attempt;
    });
  }

  -- What a publisher writes, a worker reads back: if unmarshalling undoes marshalling and no id is
  -- written as the empty text, the message decodes to the run, the job, its type and the attempt.
  pub decode_dispatch-dispatch_message :
      (unmarshal : String → Result String Dispatch)
      → ((d : Dispatch) → unmarshal (marshal d) ≡ ok d)
      → ((id : ℕ) → text_eq (uuid id) "" ≡ false)
      → (run_id job_id attempt : ℕ) (job_type : String)
      → decode_dispatch unmarshal (dispatch_message run_id job_id attempt job_type).value
        ≡ ok (record {
          run_id = uuid run_id;
          job_id = uuid job_id;
          job_type = job_type;
          attempt = attempt;
        })
  unfolding decode_dispatch dispatch_message
  decode_dispatch-dispatch_message unmarshal undo named run_id job_id attempt job_type =
      let d : Dispatch = record {
        run_id = uuid run_id;
        job_id = uuid job_id;
        job_type = job_type;
        attempt = attempt;
      } in
      rw (undo d, decode_dispatch, named run_id) refl

-- CheckTopic: the errors of dialling each broker, and what the first that answers says of the topic.
module _ (dial : String → Option String) (read_partitions : String → Result String ℕ) where
  abbrev pub partitions_of : Result String ℕ → Result String ℕ
  partitions_of (err e) = err ("topic job-dispatch: " <> e)
  partitions_of (ok n) = ok n

  unfoldable pub check_brokers : List String → String → Result String ℕ
  check_brokers [] last = err ("reach kafka: " <> last)
  check_brokers (b ∷ bs) last = elim (dial b) [
    | some e ↦ check_brokers bs e
    | none ↦ partitions_of (read_partitions b)
  ]

  unfoldable pub check_topic : List String → Result String ℕ
  unfolding check_brokers
  check_topic [] = err "no kafka brokers configured"
  check_topic (b ∷ bs) = check_brokers (b ∷ bs) ""
