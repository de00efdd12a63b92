-- ===== src/Lib.antt =====
-- jobsys: an API server with a cron scheduler, Kafka dispatch, a pool of workers, and Postgres as the
-- source of truth.
--
-- Parts and files:
--   Base       shared: Boolean tests, tables of rows, text, unique columns, signed integers.
--   Store      internal/store and migrations/001_init.sql. Models and Table hold the rows and the
--              forms of the SQL statements; Jobs, Runs, Worker, Retry, Schedule and Logs hold one
--              function for each method of store.DB, named as the method is. History lists the
--              statements as calls, in the order in which Postgres serialises them. Phase is the
--              specification of a run's life, and Rows relates each statement's row to it.
--              Migrate is migrate.go: Migrate and applyMigration; a call is one step, since an advisory
--              lock makes callers take turns.
--   Job        internal/job/job.go: Payload (validation), Generate (an attempt, its text and its log),
--              Cron (NextRun).
--   Queue      internal/queue/queue.go: the dispatch message, CheckTopic, and Publisher, the settings of
--              the writer and the reader and what a publish leaves in the broker's log.
--   Worker     internal/worker: Backoff (retryDelay), RunLog (runlog.go), Execute (claim, execute and
--              its ends), Maintain (one pass of maintain). A worker acts on a World: the tables, the
--              runs announced on the topic, the output files. Each call of the database or the broker
--              goes through, fails, or takes effect and loses its answer, as a Fault says.
--              Heartbeat is heartbeat, tick by tick. Handling, HandledRows, Announced and Recovers follow
--              a run through a maintenance pass.
--              Pool is Run and consume: a step relation on the slots, the goroutines and the World, in
--              which the consume loop, the jobs, the maintenance passes and other processes take turns
--              in any order.
--   Scheduler  internal/scheduler/scheduler.go: Run, Tick and next, on the same World. What the
--              environment does in each round of Tick's loop is a list; Termination bounds the rounds
--              it needs.
--   Api        internal/api: what the handlers share (api.go), Jobs (newJob and the handlers of jobs),
--              Runs (those of runs and logs), Stream (stream.go), Server (Routes, decodeJSON and the
--              probes). A handler takes the texts of its request to the World and an answer: a status
--              code and the value written.
--   App        internal/app/app.go: WaitFor, Env, EnvInt, EnvDuration, SplitList; Startup is OpenDB,
--              WaitForTopic and store.Open, Process what a process opens, closes and logs, Config
--              loadConfig of cmd/worker/main.go. Opened and Leaving show what is open at each point.
--   Main       cmd/worker/main.go (Worker) and cmd/api/main.go (Api): the main functions, serve, run and
--              migrate, with their deferred calls and exit statuses.
--   Ctl        cmd/jobctl/main.go: Bytes (bufio.Scanner and strings on bytes), Wire (the bytes that send
--              in internal/api/stream.go writes), Events (readEvents), Follow (follow), Client (do and
--              apiError), Show (jobs, status, run, the output of create), Create (its request), Logs
--              (logs, page by page), Commands (main and the commands). Transcripts, Exit, Logs/Paging and
--              Create/Accepted put the client and the handlers together.
--   System     the parts together. EndToEnd follows one run from its request over the message that a
--              worker reads to its output. Notices is a step relation in which the API, the scheduler
--              and any number of workers take turns on one World, a request, a tick or a step of a worker
--              being one turn; Sound, Requests, Firings, Passes and Attempts treat their turns.
--
-- Time and ids: a uuid is a number below 2^128 that is never computed with, a time a number of
-- microseconds, in App one of milliseconds or nanoseconds as said there, now() an argument. A
-- duration is given in the same unit, so the rounding of Seconds() to a float and of timestamptz is
-- left out; the doubling of a time.Duration keeps its wrap-around. SKIP LOCKED is an argument too:
-- the rows that other transactions hold. A statement is atomic. One that fails changes nothing. What
-- other processes do while a job runs is a list of calls.
--
-- Parameters: encoding/json in both directions, fmt's %q, strings.TrimSpace, strconv.Atoi,
-- time.ParseDuration, uuid.Parse, the time zone database, the cron library, the text of a uuid and
-- its parsing by Postgres, pgxpool.ParseConfig and the flag package. Each is an argument of the
-- definitions that use it.
--
-- Fuel: decimal takes n + 1 rounds for the digits of n, one more than it needs. The loops of Tick,
-- of the log stream, of jobctl logs and of WaitFor recur on the lists of what each round meets; for
-- WaitFor 39 rounds are enough.
--
-- Not modelled: the pooling of connections, scanning and Ping, HTTP itself and the logging of requests,
-- the layout of tables in jobctl, the tickers' timing, and the web UI's assets.
pub mod Api
pub mod App
pub mod Base
pub mod Ctl
pub mod Job
pub mod Main
pub mod Queue
pub mod Scheduler
pub mod Store
pub mod System
pub mod Worker
