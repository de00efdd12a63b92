-- ===== src/Ctl/Transcripts.antt =====
-- A finished run's log, from the server's tables through the stream to what jobctl prints.
use jobsys.Base.{
  ℕ, zero, suc, ◌+◌, ◌<◌, String, true, false, ◌≡◌, refl, ap, Option, some, List, [], ◌∷◌, ◌++◌,
  map, length, All, All-append, All-split, ok,
}
use mathlib.Core.List.{append_assoc, append-nil, map-append}
use jobsys.Store.Models.{Run, Db, LogLine}
use jobsys.Store.Table.{find_run}
use jobsys.Store.Runs.{get_run}
use jobsys.Store.Logs.{list_logs}
use jobsys.Store.LogKeys.{IsKeyed}
use jobsys.Worker.Env.{World, fine}
use jobsys.Api.{Libraries, query, query_int}
use jobsys.Api.Stream.{
  StreamEvent, attempt_begins, a_line, run_ends, is_final, Stream, refusal, streaming,
  handle_stream_logs,
}
use jobsys.Api.Reading.{IsNumbered}
use jobsys.Api.Following.{polls, transcript, follow-transcript}
use jobsys.Ctl.Bytes.{Bytes}
use jobsys.Ctl.Status.{status_text}
use jobsys.Ctl.Wire.{Marshal, wire, Piece, write_all, events_of}
use jobsys.Ctl.Events.{Stop, stopped, run_callback, scan_error, IsSendable, read_events-write_all}
use jobsys.Ctl.Follow.{
  Unmarshal, End, Screen, Printed, attempt_heading, printed_line, run_footer, Interrupt, stream_end,
  on_event, ending_error, conclude, follow_run, no_end, show,
}

-- The client's JSON reads an event as the server's wrote it.
abbrev pub ReadsBack : Marshal → Unmarshal → StreamEvent → Type 0
ReadsBack m json (attempt_begins n) = json.attempt (m.attempt n) ≡ n
ReadsBack m json (a_line l) = json.line (m.line l) ≡ ok l
ReadsBack m json (run_ends status attempt error) =
    json.end (m.end (status_text status) attempt error)
    ≡ ok (record { status = status_text status; attempt = attempt; error = error })

-- What an event makes the client print.
abbrev pub printed_of : StreamEvent → Printed
printed_of (attempt_begins n) = attempt_heading n
printed_of (a_line l) = printed_line l
printed_of (run_ends status attempt error) = run_footer (status_text status) attempt

-- What is sent, pings aside, is what the handler streams.
abbrev pub IsBodyOf : Marshal → List Piece → Stream → Type 0
IsBodyOf m ps (refusal r) = ⊥
IsBodyOf m ps (streaming es) = events_of ps ≡ map (wire m) es

-- What the client reads of a run's end.
abbrev pub ended : Run → End
ended r = record { status = status_text r.status; attempt = r.attempt; error = r.error }

abbrev IsOpen : StreamEvent → Type 0
IsOpen (attempt_begins n) = Unit
IsOpen (a_line l) = Unit
IsOpen (run_ends status attempt error) = ⊥

module _ (m : Marshal) (json : Unmarshal) (trim_space : Bytes → Bytes) where
  abbrev shows : List StreamEvent → Screen → Screen
  shows es s = record s { printed = s.printed ++ map printed_of es }

  run_callback-open :
      (es : List StreamEvent) (rest : List (Bytes × Bytes)) (end : Option (Stop Interrupt))
      (s : Screen)
      → All IsOpen es
      → All (ReadsBack m json) es
      → run_callback trim_space (on_event json) (map (wire m) es ++ rest) end s
        ≡ run_callback trim_space (on_event json) rest end (shows es s)
  unfolding run_callback on_event wire
  run_callback-open [] rest end s h back = let same = append-nil s.printed in rw same refl
  run_callback-open (attempt_begins n ∷ es) rest end s h back =
      let read = back.0 in
      let later = run_callback-open es rest end (show (attempt_heading n) s) h.1 back.1 in
      let one = append_assoc s.printed (attempt_heading n ∷ []) (map printed_of es) in
      rw (read, later, one) refl
  run_callback-open (a_line l ∷ es) rest end s h back =
      let read = back.0 in
      let later = run_callback-open es rest end (show (printed_line l) s) h.1 back.1 in
      let one = append_assoc s.printed (printed_line l ∷ []) (map printed_of es) in cc
  run_callback-open (run_ends x y z ∷ es) rest end s h back = absurd h.0

module _ (db : Db) (r : Run) where
  -- A transcript before its last event.
  unfoldable told : ℕ → ℕ → ℕ → List StreamEvent
  told zero attempt from = map a_line (list_logs r.id attempt from (length db.logs) db)
  told (suc later) attempt from =
      map a_line (list_logs r.id attempt from (length db.logs) db)
      ++ attempt_begins (attempt + 1) ∷ told later (attempt + 1) 1

  lines-IsOpen : (ls : List LogLine) → All IsOpen (map a_line ls)
  lines-IsOpen [] = tt
  lines-IsOpen (l ∷ ls) = (tt, lines-IsOpen ls)

  told-IsOpen : (later attempt from : ℕ) → All IsOpen (told later attempt from)
  unfolding told
  told-IsOpen zero attempt from = lines-IsOpen (list_logs r.id attempt from (length db.logs) db)
  told-IsOpen (suc later) attempt from =
      All-append IsOpen _ _ (lines-IsOpen (list_logs r.id attempt from (length db.logs) db))
        (tt, told-IsOpen later (attempt + 1) 1)

  transcript-told :
      (later attempt from : ℕ)
      → transcript db r later attempt from
        ≡ told later attempt from ++ run_ends r.status r.attempt r.error ∷ []
  unfolding transcript told
  transcript-told zero attempt from = refl
  transcript-told (suc later) attempt from =
      let rest = transcript-told later (attempt + 1) 1 in
      let lines = map a_line (list_logs r.id attempt from (length db.logs) db) in
      let last = run_ends r.status r.attempt r.error ∷ [] in
      rw (rest, append_assoc lines (attempt_begins (attempt + 1) ∷ told later (attempt + 1) 1) last)
        refl

module _ (m : Marshal) (json : Unmarshal) (trim_space : Bytes → Bytes) (db : Db) (r : Run) where
  abbrev first : Screen
  first = record { printed = []; end = no_end }

  run_callback-end :
      (end : Option (Stop Interrupt)) (s : Screen)
      → ReadsBack m json (run_ends r.status r.attempt r.error)
      → run_callback trim_space
          (on_event json)
          (wire m (run_ends r.status r.attempt r.error) ∷ [])
          end
          s
        ≡ (record s { end = ended r }, some (stopped stream_end))
  unfolding run_callback on_event wire
  run_callback-end end s read = cc

  conclude-told :
      (es all : List StreamEvent)
      → all ≡ es ++ run_ends r.status r.attempt r.error ∷ []
      → (end : Option (Stop Interrupt)) → All IsOpen es
      → All (ReadsBack m json) all
      → conclude json (run_callback trim_space (on_event json) (map (wire m) all) end first)
        ≡ (map printed_of all, ending_error json (ended r))
  unfolding conclude
  conclude-told es all whole end open_es back =
      let last = run_ends r.status r.attempt r.error ∷ [] in
      let (front, (final, none_left)) = All-split (ReadsBack m json) es last (rw whole at back) in
      let sent = map-append (wire m) es last in
      let shown =
        run_callback-open m json trim_space es (map (wire m) last) end first open_es front in
      let over = run_callback-end end (shows m json trim_space es first) final in
      let all_printed = map-append printed_of es last in
      rw (whole, sent, shown, over, all_printed) refl

  full-open :
      (later : ℕ)
      → attempt_begins 1 ∷ transcript db r later 1 1
        ≡ (attempt_begins 1 ∷ told db r later 1 1) ++ run_ends r.status r.attempt r.error ∷ []
  full-open later = ap (◌∷◌ (attempt_begins 1)) (transcript-told db r later 1 1)

  follow_run-full :
      (later : ℕ) (ps : List Piece) (reader : Option String)
      → events_of ps ≡ map (wire m) (attempt_begins 1 ∷ transcript db r later 1 1)
      → All (IsSendable trim_space) ps
      → All (ReadsBack m json) (attempt_begins 1 ∷ transcript db r later 1 1)
      → follow_run json trim_space (write_all ps) reader ≡ (
        map printed_of (attempt_begins 1 ∷ transcript db r later 1 1),
        ending_error json (ended r),
      )
  unfolding follow_run
  follow_run-full later ps reader sent fit back =
      let start = attempt_begins 1 ∷ told db r later 1 1 in
      let read = read_events-write_all trim_space (on_event json) ps reader first fit in
      let full = full-open later in
      let done =
        conclude-told start _ full (scan_error trim_space (on_event json) false reader)
          (tt, told-IsOpen db r later 1 1) back in
      rw (read, sent) done

-- Following a run that is over, by `jobctl logs -f`: what is printed is every attempt's heading and
-- log, each line once and in order, and the run's end, and the command fails exactly with the
-- message for a run that has not succeeded. The log table keeps its primary key and numbers below
-- 2^63 - 1; the client's JSON reads what the server's wrote, a line each; pings may come in between.
pub follow_run-transcript :
    (lib : Libraries) (m : Marshal) (json : Unmarshal) (trim_space : Bytes → Bytes) (path : String)
    (w : World) (r : Run) (later polled read : ℕ) (ps : List Piece) (reader : Option String)
    → lib.parse_uuid path ≡ some r.id
    → find_run r.id w.db ≡ some r
    → is_final r.status ≡ true
    → r.attempt ≡ 1 + later
    → IsKeyed w.db.logs
    → All IsNumbered w.db.logs
    → later < polled
    → length w.db.logs < read
    → IsBodyOf m ps (handle_stream_logs lib path "" "" fine (polls polled read w.db) w)
    → All (IsSendable trim_space) ps
    → All (ReadsBack m json) (attempt_begins 1 ∷ transcript w.db r later 1 1)
    → follow_run json trim_space (write_all ps) reader ≡ (
      map printed_of (attempt_begins 1 ∷ transcript w.db r later 1 1),
      ending_error json (ended r),
    )
unfolding handle_stream_logs query_int query get_run
follow_run-transcript lib m json trim_space path w r later polled read ps reader parsed found over
      last keyed numbered more enough body fit back =
    let told =
      follow-transcript w.db r later 1 1 polled read found over last keyed numbered more enough in
    let streamed : handle_stream_logs lib path "" "" fine (polls polled read w.db) w
        ≡ streaming (attempt_begins 1 ∷ transcript w.db r later 1 1) =
      cc in
    follow_run-full m json trim_space w.db r later ps reader (rw streamed at body) fit back
