-- ===== src/Queue/Publisher.antt =====
-- Publisher and NewConsumer of internal/queue/queue.go: the settings of both ends, and what Dispatch
-- writes, beside the topic of notices that the other parts act on. kafka-go's WriteMessages is a call
-- that goes through, fails, or loses its answer.
use jobsys.Base.{
  ℕ, String, Bool, true, false, ◌≡◌, List, [], ◌∷◌, ◌++◌, map, Result, ok, text_eq, if◌then◌else◌,
}
use jobsys.Queue.{Dispatch, Message, dispatch_message, decode_dispatch}
use jobsys.Worker.Env.{Notice, Fault, fine, refused, unanswered}

abbrev pub dispatch_topic : String
dispatch_topic = "job-dispatch"

abbrev pub worker_group : String
worker_group = "job-workers"

-- Times in milliseconds. Messages go to the partitions in turn, and count once all replicas have them.
pub record WriterConfig : Type 0 where
  pub brokers : List String
  pub topic : String
  pub round_robin : Bool
  pub require_all : Bool
  pub batch_timeout : ℕ
  pub max_attempts : ℕ
  pub write_timeout : ℕ

abbrev pub new_publisher : List String → WriterConfig
new_publisher brokers = record {
  brokers = brokers;
  topic = dispatch_topic;
  round_robin = true;
  require_all = true;
  batch_timeout = 10;
  max_attempts = 3;
  write_timeout = 5000;
}

pub record ReaderConfig : Type 0 where
  pub brokers : List String
  pub topic : String
  pub group_id : String
  pub session_timeout : ℕ
  pub heartbeat_interval : ℕ

abbrev pub new_consumer : List String → ReaderConfig
new_consumer brokers = record {
  brokers = brokers;
  topic = dispatch_topic;
  group_id = worker_group;
  session_timeout = 10000;
  heartbeat_interval = 3000;
}

-- What the broker holds of each topic.
abbrev pub Log : Type 0
Log = List (String × Message)

abbrev pub written : String → Message → Log → Log
written topic m log = log ++ (topic, m) ∷ []

-- WriteMessages, and whether it returns no error.
unfoldable pub write_messages : WriterConfig → Fault → Message → Log → Log × Bool
write_messages cfg fine m log = (written cfg.topic m log, true)
write_messages cfg (refused e) m log = (log, false)
write_messages cfg (unanswered e) m log = (written cfg.topic m log, false)

-- The values of the messages that a reader of a topic is given.
unfoldable pub values_of : String → Log → List String
values_of topic [] = []
values_of topic ((t, m) ∷ log) =
    let rest = values_of topic log in if text_eq t topic then m.value ∷ rest else rest

module _ (marshal : Dispatch → String) (uuid : ℕ → String) where
  -- Dispatch of a publisher, on a run's id, job and attempt and the type of its job.
  unfoldable pub publish : WriterConfig → Fault → Notice → Log → Log × Bool
  publish cfg fault n =
      write_messages cfg fault
        (dispatch_message marshal uuid n.run_id n.job_id n.attempt n.job_type)

  -- What a worker makes of a notice.
  abbrev pub decoded : Notice → Dispatch
  decoded n = record {
    run_id = uuid n.run_id;
    job_id = uuid n.job_id;
    job_type = n.job_type;
    attempt = n.attempt;
  }

  module _ (unmarshal : String → Result String Dispatch)
      (undo : (d : Dispatch) → unmarshal (marshal d) ≡ ok d)
      (named : (id : ℕ) → text_eq (uuid id) "" ≡ false) where
    -- Workers that consume the broker's log decode exactly these notices, in order.
    abbrev pub IsReadAs : List String → Log → List Notice → Type 0
    IsReadAs brokers log notices =
        map (decode_dispatch unmarshal) (values_of (new_consumer brokers).topic log)
        ≡ map (λ n. ok (decoded n)) notices
