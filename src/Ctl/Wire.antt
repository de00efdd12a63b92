-- ===== src/Ctl/Wire.antt =====
-- `send` of handleStreamLogs, internal/api/stream.go: the bytes of an event. encoding/json is a
-- parameter.
use jobsys.Base.{ℕ, String, Option, List, [], ◌∷◌, ◌++◌}
use jobsys.Store.Models.{LogLine}
use jobsys.Api.Stream.{StreamEvent, attempt_begins, a_line, run_ends}
use jobsys.Ctl.Bytes.{Bytes, codes}
use jobsys.Ctl.Status.{status_text}

-- json.Marshal of the three values that handleStreamLogs sends.
pub record Marshal : Type 0 where
  pub attempt : ℕ → Bytes
  pub line : LogLine → Bytes
  pub end : String → ℕ → Option String → Bytes

-- `send`: an event's name and its text.
unfoldable pub wire : Marshal → StreamEvent → Bytes × Bytes
wire m (attempt_begins n) = (codes "attempt", m.attempt n)
wire m (a_line l) = (codes "line", m.line l)
wire m (run_ends status attempt error) = (codes "end", m.end (status_text status) attempt error)

-- What the server writes: an event, `send` of handleStreamLogs, or a comment that keeps the
-- connection open.
pub data Piece : Type 0 where
  event_of : Bytes → Bytes → Piece
  ping : Piece

-- The text of a piece, before what is written after it.
unfoldable pub write_piece : Piece → Bytes → Bytes
write_piece (event_of event text) rest =
    codes "event: " ++ (event ++ (b'\n' ∷ (codes "data: " ++ (text ++ (b'\n' ∷ b'\n' ∷ rest)))))
write_piece ping rest = codes ": ping\n\n" ++ rest

unfoldable pub write_all : List Piece → Bytes
write_all [] = []
write_all (p ∷ ps) = write_piece p (write_all ps)

abbrev pub events_of : List Piece → List (Bytes × Bytes)
events_of [] = []
events_of (event_of event text ∷ ps) = (event, text) ∷ events_of ps
events_of (ping ∷ ps) = events_of ps
