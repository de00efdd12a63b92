-- ===== src/App/Tests.antt =====
-- Start-up at concrete values.
use jobsys.Base.{
  ℕ, zero, suc, ◌+◌, ◌*◌, ◌≤◌, ◌≡◌, refl, false, none, some, List, [], ◌∷◌, ok, err, arith,
}
use jobsys.Base.Int.{pos}
use jobsys.App.{Check, wait_for, env, env_int, env_duration, split_list, split_commas}
use jobsys.App.Waiting.{IsTold, wait_for-IsTold}
use jobsys.App.Config.{Host, Settings, load_config, read_settings, check_settings, second}
use jobsys.App.Config.Sound.{load_config-retry_delay}
use jobsys.Worker.Backoff.{retry_delay}

abbrev no_answer : Check
no_answer = record { took = 20; failure = some "connection refused"; favours_timer = false }

-- Postgres comes up before the third check; the rest is not needed.
abbrev repeated : ℕ → List Check
repeated zero = []
repeated (suc n) = no_answer ∷ repeated n

abbrev third_time : List Check
third_time =
    no_answer ∷ no_answer ∷ record { took = 5; failure = none; favours_timer = false } ∷ repeated 36

wait_for-IsTold_example :
    IsTold "postgres" "3m0s" third_time 1 (wait_for "postgres" "3m0s" 180000 third_time)
wait_for-IsTold_example =
    wait_for-IsTold "postgres" "3m0s" 180000 third_time (omega arith) (omega arith)

two_brokers : split_list (λ s. s) "a:9092,b:9092" ≡ "a:9092" ∷ "b:9092" ∷ []
unfolding split_list split_commas
two_brokers = refl

-- Nothing is set.
abbrev pub bare : Host
bare = record {
  getenv = λ key. "";
  atoi = λ s. err "invalid syntax";
  parse_duration = λ s. err "invalid duration";
  show_duration = λ d. "";
  worker_id = "host-1";
  output_dir = "/tmp/jobsys-output";
}

abbrev pub defaults : Settings
defaults = record {
  id = "host-1";
  output_dir = "/tmp/jobsys-output";
  concurrency = pos 2;
  heartbeat_interval = pos (3 * second);
  stale_after = pos (15 * second);
  maintenance_interval = pos (5 * second);
  sweep_after = pos (60 * second);
  shutdown_grace = pos (10 * second);
  retry_base_delay = pos (5 * second);
  retry_max_delay = pos (300 * second);
}

bare-defaults : load_config bare ≡ ok defaults
unfolding load_config read_settings check_settings env env_int env_duration
bare-defaults = refl

load_config-retry_delay_example :
    (n : ℕ) × (base : ℕ) × (most : ℕ) × (stale : ℕ) × (d : ℕ) × (pos 2 ≡ pos (n + 1))
    × (pos (5 * second) ≡ pos base)
    × (pos (300 * second) ≡ pos most)
    × (pos (15 * second) ≡ pos stale)
    × (3 * (3 * second) ≤ stale)
    × (1 ≤ base)
    × (retry_delay (pos (5 * second)) (pos (300 * second)) 4 ≡ pos d)
    × (base ≤ d)
    × (d ≤ most)
load_config-retry_delay_example =
    load_config-retry_delay bare defaults (3 * second) 4 bare-defaults refl (omega arith) refl
