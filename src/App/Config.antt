-- ===== src/App/Config.antt =====
-- loadConfig of cmd/worker/main.go: a worker's settings and their checks. Durations are nanoseconds.
use jobsys.Base.{
  ℕ, ◌+◌, ◌*◌, ◌^◌, ◌≤◌, ◌<◌, ◌≡◌, refl, String, Bool, true, false, ◌||◌, ◌<>◌, Option, none, some,
  List, [], ◌∷◌, Result, ok, err, ◌>>=◌, if◌then◌else◌, Bool-cases, inl, inr, arith,
}
use jobsys.Base.Int.{ℤ, pos, negsuc, ltbℤ, triple64}
use jobsys.App.{env, env_int, env_duration}
pub mod Sound

pub record Settings : Type 0 where
  pub id : String
  pub output_dir : String
  pub concurrency : ℤ
  pub heartbeat_interval : ℤ
  pub stale_after : ℤ
  pub maintenance_interval : ℤ
  pub sweep_after : ℤ
  pub shutdown_grace : ℤ
  pub retry_base_delay : ℤ
  pub retry_max_delay : ℤ

-- strconv.Atoi, time.ParseDuration, `%v` of a duration, the name of host and process, and the default
-- directory.
pub record Host : Type 0 where
  pub getenv : String → String
  pub atoi : String → Result String ℤ
  pub parse_duration : String → Result String ℤ
  pub show_duration : ℤ → String
  pub worker_id : String
  pub output_dir : String

abbrev pub second : ℕ
second = 1000000000

module _ (host : Host) where
  abbrev pub too_few : Settings → Bool
  too_few s = ltbℤ s.concurrency (pos 1)

  abbrev pub bad_delays : Settings → Bool
  bad_delays s = ltbℤ s.retry_base_delay (pos 1) || ltbℤ s.retry_max_delay s.retry_base_delay

  abbrev pub stale_too_soon : Settings → Bool
  stale_too_soon s = ltbℤ s.stale_after (triple64 s.heartbeat_interval)

  unfoldable pub read_settings : Result String Settings
  read_settings = do
    concurrency ← env_int host.getenv host.atoi "WORKER_CONCURRENCY" (pos 2)
    heartbeat ← env_duration host.getenv host.parse_duration "HEARTBEAT_INTERVAL" (pos (3 * second))
    stale ← env_duration host.getenv host.parse_duration "STALE_AFTER" (pos (15 * second))
    maintenance ←
        env_duration host.getenv host.parse_duration "MAINTENANCE_INTERVAL" (pos (5 * second))
    sweep ← env_duration host.getenv host.parse_duration "SWEEP_AFTER" (pos (60 * second))
    grace ← env_duration host.getenv host.parse_duration "SHUTDOWN_GRACE" (pos (10 * second))
    base ← env_duration host.getenv host.parse_duration "RETRY_BASE_DELAY" (pos (5 * second))
    most ← env_duration host.getenv host.parse_duration "RETRY_MAX_DELAY" (pos (300 * second))
    ok (record {
      id = env host.getenv "WORKER_ID" host.worker_id;
      output_dir = env host.getenv "OUTPUT_DIR" host.output_dir;
      concurrency = concurrency;
      heartbeat_interval = heartbeat;
      stale_after = stale;
      maintenance_interval = maintenance;
      sweep_after = sweep;
      shutdown_grace = grace;
      retry_base_delay = base;
      retry_max_delay = most;
    })

  -- The checks behind the settings.
  unfoldable pub check_settings : Settings → Result String Settings
  check_settings s =
      let shown = host.show_duration in
      if too_few s
      then err "WORKER_CONCURRENCY must be at least 1"
      else if bad_delays s
      then err (
          "need 0 < RETRY_BASE_DELAY ("
          <> (shown s.retry_base_delay
              <> (") <= RETRY_MAX_DELAY (" <> (shown s.retry_max_delay <> ")"))))
      else if stale_too_soon s
      then err (
          "STALE_AFTER ("
          <> (shown s.stale_after
              <> (") must be at least 3x HEARTBEAT_INTERVAL ("
                  <> (shown s.heartbeat_interval
                      <> "), or a slow heartbeat gets a live worker's run taken away"))))
      else ok s

  unfoldable pub load_config : Result String Settings
  load_config = do s ← read_settings; check_settings s
