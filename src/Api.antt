-- ===== src/Api.antt =====
-- internal/api/api.go: what the handlers share. An answer of the server is its status code and the
-- value that encoding/json writes.
use jobsys.Base.{
  ℕ, String, Bool, Option, none, some, List, ◌||◌, ◌<>◌, if◌then◌else◌, text_eq, decimal, Result,
  ok, err,
}
use jobsys.Base.Int.{ℤ, ltbℤ, pos_part}
use jobsys.Store.Models.{Job, Run, Status, LogLine, Db, StoreError, not_found, unavailable}
use jobsys.Job.Payload.{GenerateText}
use jobsys.Job.Cron.{Clockwork}
use jobsys.Worker.Env.{World, Fault, fine, refused, unanswered}
pub mod Jobs
pub mod Runs
pub mod Stream
pub mod Server
pub mod Reading
pub mod Following
pub mod Offers
pub mod Dispatching
pub mod Tests

-- strings.TrimSpace, strconv.Atoi, fmt's %q, uuid.Parse, the decoding of a payload, and what
-- NextRun asks of its libraries.
pub record Libraries : Type 1 where
  pub trim_space : String → String
  pub atoi : String → Option ℤ
  pub quote : String → String
  pub parse_uuid : String → Option ℕ
  pub decode : String → Result String GenerateText
  pub clockwork : Clockwork

pub record LogsResponse : Type 0 where
  pub run_id : ℕ
  pub attempt : ℕ
  pub status : Status
  pub lines : List LogLine
  pub next_seq : ℤ

pub data Body : Type 0 where
  a_job : Job → Body
  jobs : List Job → Body
  a_run : Run → Body
  runs : List Run → Body
  logs : LogsResponse → Body
  failure : String → Body

pub record Response : Type 0 where
  pub status : ℕ
  pub body : Body

-- writeJSON and writeError.
abbrev pub write_json : ℕ → Body → World → World × Response
write_json status body w = (w, record { status = status; body = body })

abbrev pub write_error : ℕ → String → World → World × Response
write_error status msg = write_json status (failure msg)

unfoldable pub store_error : String → StoreError → World → World × Response
store_error what not_found = write_error 404 (what <> " not found")
store_error what _ = write_error 500 "internal error"

-- A call of the store from a handler.
unfoldable pub query {ℓ} :
    {A : Type ℓ} → Fault → (Db → Db × Result StoreError A) → World → World × Result StoreError A
query fine f w = let (db, a) = f w.db in (record w { db = db }, a)
query (refused e) f w = (w, err (unavailable e))
query (unanswered e) f w = (record w { db = (f w.db).0 }, err (unavailable e))

-- A SELECT, and a statement that changes nothing where it fails.
abbrev pub reading {ℓ} : {A : Type ℓ} → (Db → Result StoreError A) → Db → Db × Result StoreError A
reading f db = (db, f db)

abbrev pub writing {ℓ} : {A : Type ℓ} → Db → Result StoreError (Db × A) → Db × Result StoreError A
writing db (ok (after, a)) = (after, ok a)
writing db (err e) = (db, err e)

module _ (lib : Libraries) where
  -- The range of a query parameter.
  abbrev pub in_range : String → ℤ → ℤ → Option ℤ → Result String ℤ
  in_range complaint lo hi none = err complaint
  in_range complaint lo hi (some n) = if ltbℤ n lo || ltbℤ hi n then err complaint else ok n

  -- The bounds are not negative where the handlers ask for a number.
  unfoldable pub query_int : String → String → ℤ → ℤ → ℤ → Result String ℤ
  query_int name raw def lo hi =
      if text_eq raw ""
      then ok def
      else in_range
          (name
            <> " must be an integer between "
            <> decimal (pos_part lo)
            <> " and "
            <> decimal (pos_part hi))
          lo hi (lib.atoi raw)
