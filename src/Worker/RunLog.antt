-- ===== src/Worker/RunLog.antt =====
-- runlog.go: the buffer of a run's log lines. A flush takes the buffer under the mutex and hands it
-- to AppendLogs; `sent` lists the batches handed over, oldest first.
use jobsys.Base.{
  ℕ, ◌+◌, ◌≤◌, ◌<◌, ◌≡◌, String, List, [], ◌∷◌, ◌++◌, length, if◌then◌else◌, leb, All,
}
use jobsys.Store.Models.{LogLine}

pub record RunLogger : Type 0 where
  pub attempt : ℕ
  pub max_batch : ℕ
  pub seq : ℕ
  pub buf : List LogLine
  pub sent : List (List LogLine)

abbrev pub start : ℕ → ℕ → RunLogger
start attempt max_batch = record {
  attempt = attempt;
  max_batch = max_batch;
  seq = 0;
  buf = [];
  sent = [];
}

abbrev pub send : List (List LogLine) → List LogLine → List (List LogLine)
send sent [] = sent
send sent (l ∷ ls) = sent ++ (l ∷ ls) ∷ []

unfoldable pub flush : RunLogger → RunLogger
flush s = record s { buf = []; sent = send s.sent s.buf }

abbrev pub numbered_line : ℕ → ℕ → ℕ → String → String → LogLine
numbered_line attempt seq ts level line = record {
  attempt = attempt;
  seq = seq;
  ts = ts;
  level = level;
  line = line;
}

-- Log: the lines are numbered under the mutex; a full buffer is flushed.
unfoldable pub log : ℕ → String → String → RunLogger → RunLogger
unfolding flush
log ts level line s =
    let seq = s.seq + 1 in
    let s' = record s {
      seq = seq;
      buf = s.buf ++ numbered_line s.attempt seq ts level line ∷ [];
    } in
    if leb s.max_batch (length s'.buf) then flush s' else s'

-- What happens to a logger: the job logs a line (its time, level and text), or the ticker fires.
pub data Event : Type 0 where
  logs : ℕ → String → String → Event
  ticks : Event

unfoldable pub handle : RunLogger → Event → RunLogger
unfolding log flush
handle s (logs ts level line) = log ts level line s
handle s ticks = flush s

unfoldable pub handle_all : RunLogger → List Event → RunLogger
handle_all s [] = s
handle_all s (e ∷ es) = handle_all (handle s e) es

-- Close: the last lines are written.
unfoldable pub close : RunLogger → RunLogger
unfolding flush
close s = flush s

-- The lines of a list of events, numbered from `seq + 1` on.
unfoldable pub lines_of : ℕ → ℕ → List Event → List LogLine
lines_of attempt seq [] = []
lines_of attempt seq (logs ts level line ∷ es) =
    numbered_line attempt (seq + 1) ts level line ∷ lines_of attempt (seq + 1) es
lines_of attempt seq (ticks ∷ es) = lines_of attempt seq es

-- The batches one after another.
unfoldable pub joined : List (List LogLine) → List LogLine
joined [] = []
joined (b ∷ bs) = b ++ joined bs

-- Everything that the logger has been given.
abbrev pub all_lines : RunLogger → List LogLine
all_lines s = joined s.sent ++ s.buf

-- No batch is larger than `most`, and the buffer is smaller.
abbrev IsSmall : ℕ → RunLogger → Type 0
IsSmall most s = All (λ b. length b ≤ most) s.sent × (length s.buf < most) × (s.max_batch ≡ most)
