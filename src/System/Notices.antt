-- ===== src/System/Notices.antt =====
-- The processes of the system on the shared tables and the topic: the API, the scheduler and any
-- number of workers, one request, tick or step of a worker at a time, in any order.
use mathlib.Core.List.{Memᴰ}
use mathlib.Core.List.Memᴰ
use jobsys.Base.{ℕ, ◌≤◌, ◌≡◌, refl, String, Bool, Option, some, List, [], Result}
use jobsys.Queue.{Dispatch}
use jobsys.Store.Models.{Run, StoreError}
use jobsys.Store.Table.{find_run}
use jobsys.Store.Follows.{Follows-exec, Follows-refl}
use jobsys.Store.History.{exec}
use jobsys.Store.Histories.{IsValid}
use jobsys.Worker.Env.{Config, World, Notice}
use jobsys.Worker.Pool.{
  Pool, Step, cancels, takes_slot, stops, cannot_fetch, fetches, skips, starts, loads, cannot_load,
  ends, hands_back, returns, maintains, others,
}
use jobsys.Api.{Libraries}
use jobsys.Api.Jobs.{CreateJobRequest}
use jobsys.Api.Server.{Request, Calls, serve_request}
use jobsys.Job.Cron.{Clockwork}
use jobsys.Scheduler.{Round, tick}
use jobsys.System.Sound.{IsSound, IsSound-Follows, call-IsSound}
use jobsys.System.Passes.{maintain-IsSound}
use jobsys.System.Firings.{tick-IsSound}
use jobsys.System.Requests.{serve_request-IsSound}
use jobsys.System.Attempts.{fail-IsSound, conclude-IsSound, claim-IsSound}

module _ (cfg : Config) (path : String → ℕ → String) (message : StoreError → String)
    (unmarshal : String → Result String Dispatch) (parse_uuid : String → Option ℕ) where
  -- A step of a worker.
  Step-IsSound :
      (p q : Pool)
      → Step cfg path message unmarshal parse_uuid p q
      → IsSound p.world
      → IsSound q.world
  Step-IsSound p q cancels h = h
  Step-IsSound p q (takes_slot at free) h = h
  Step-IsSound p q (stops at over) h = h
  Step-IsSound p q (cannot_fetch e n at taken) h = h
  Step-IsSound p q (fetches fault now value at) h =
      claim-IsSound cfg unmarshal parse_uuid fault now value p.world h
  Step-IsSound p q (skips n at taken) h = h
  Step-IsSound p q (starts r at) h = h
  Step-IsSound p q (loads r j before after fault of found) h =
      call-IsSound fault _ p.world h (Follows-refl p.world.db)
  Step-IsSound p q (cannot_load r e before after n env of taken why) h =
      fail-IsSound cfg env r _ _ (call-IsSound env.loading _ p.world h (Follows-refl p.world.db))
  Step-IsSound p q (ends r j before after n env outcome of taken told) h =
      conclude-IsSound cfg path message env r j outcome p.world h
  Step-IsSound p q (hands_back e at) h = h
  Step-IsSound p q (returns e at none_left) h = h
  Step-IsSound p q (maintains pass running) h = maintain-IsSound cfg pass p.world h
  Step-IsSound p q (others c) h =
      IsSound-Follows p.world (record p.world { db = exec c p.world.db }) h
        (Follows-exec c p.world.db) refl

module _ (lib : Libraries) (decode : ℕ → String → Result String (CreateJobRequest × Bool))
    (quote : String → String) (clockwork : Clockwork) (path : String → ℕ → String)
    (message : StoreError → String) (unmarshal : String → Result String Dispatch)
    (parse_uuid : String → Option ℕ) where
  pub data Turn (w : World) : World → Type 0 where
    serves : (q : Request) (c : Calls) → Turn w (serve_request lib decode q c w).0
    ticks : (rs : List Round) → Turn w (tick quote clockwork rs w).0
    works :
        (cfg : Config) (p q : Pool)
        → Step cfg path message unmarshal parse_uuid p q
        → p.world ≡ w
        → Turn w q.world

  pub data Reached (w : World) : World → Type 0 where
    outset : Reached w w
    later : {v u : World} → Reached w v → Turn v u → Reached w u

  Turn-IsSound : (w v : World) → Turn w v → IsSound w → IsSound v
  Turn-IsSound w v (serves q c) h = serve_request-IsSound lib decode q c w h
  Turn-IsSound w v (ticks rs) h = tick-IsSound quote clockwork rs w h
  Turn-IsSound w v (works cfg p q s at) h =
      Step-IsSound cfg path message unmarshal parse_uuid p q s (rw at h)

  Reached-IsSound : (w v : World) → Reached w v → IsSound w → IsSound v
  Reached-IsSound w v outset h = h
  Reached-IsSound w v (later {v = u} before turn) h =
      Turn-IsSound u v turn (Reached-IsSound w u before h)

  -- Whatever the API, the scheduler and any number of workers do, one request, tick or step of a
  -- worker after the other from well-formed tables and an empty topic, whatever their calls of the
  -- database and the broker meet: the tables stay well formed, and each message of the topic names a
  -- run of the table that counts the message's attempt or a later one.
  pub Reached-known :
      (w v : World)
      → Reached w v
      → IsValid w.db
      → w.topic ≡ []
      → IsValid v.db
        × ((n : Notice)
            → Memᴰ n v.topic
            → (r : Run) × (find_run n.run_id v.db ≡ some r) × (n.attempt ≤ r.attempt))
  Reached-known w v turns valid silent =
      let start : IsSound w = record {
        valid = valid;
        known = λ n m. absurd (Memᴰ.not-nil (rw silent at m));
      } in
      let h = Reached-IsSound w v turns start in (h.valid, h.known)
