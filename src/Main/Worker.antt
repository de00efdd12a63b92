-- ===== src/Main/Worker.antt =====
-- main and run of cmd/worker/main.go.
use jobsys.Base.{ℕ, String, Option, none, some, List, [], ◌∷◌, ok, err}
use jobsys.App.{env, split_list}
use jobsys.App.Config.{Host, Settings, load_config}
use jobsys.App.Process.{
  Act, opens, closes, works, postgres, publisher, consumer, Ended, gave, failed, deferred, and_then,
  acting,
}
use jobsys.App.Startup.{Connecting, Asking, open_db, wait_for_topic}

-- What the process meets at its start: the ends of the two waits and the attempts.
pub record Surroundings : Type 0 where
  pub db_over : ℕ
  pub topic_over : ℕ
  pub connecting : List Connecting
  pub asking : List Asking

-- pgxpool.ParseConfig, strings.TrimSpace and the text of the startup timeout.
pub record Texts : Type 0 where
  pub parse_config : String → Option String
  pub trim_space : String → String
  pub timeout : String

abbrev pub ended_by : Option String → Ended (Unit {0})
ended_by none = gave tt
ended_by (some e) = failed e

module _ (host : Host) (texts : Texts) where
  abbrev pub brokers : List String
  brokers = split_list texts.trim_space (env host.getenv "KAFKA_BROKERS" "localhost:9092")

  abbrev pub opened_db : Surroundings → List Act × Ended (Unit {0})
  opened_db s = open_db host.getenv texts.timeout texts.parse_config s.db_over s.connecting

  abbrev pub found_topic : Surroundings → List Act × Ended ℕ
  found_topic s = ([], wait_for_topic host.getenv texts.timeout brokers s.topic_over s.asking)

  -- With a publisher and a consumer, for as long as Run takes.
  abbrev pub consuming : Option String → List Act × Ended (Unit {0})
  consuming stopped = acting (opens publisher) (
      deferred (closes publisher)
        (acting (opens consumer) (deferred (closes consumer) (works ∷ [], ended_by stopped))))

  -- `running` is the error of worker.Run under some settings.
  unfoldable pub run : (Settings → Option String) → Surroundings → List Act × Ended (Unit {0})
  run running s = elim (load_config host) [
    | err e ↦ ([], failed e)
    | ok settings ↦
        and_then (opened_db s) λ _.
          deferred (closes postgres) (and_then (found_topic s) λ _. consuming (running settings))
  ]
