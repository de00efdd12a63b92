-- ===== src/Ctl/Events.antt =====
-- readEvents of cmd/jobctl/main.go, and the text that internal/api/stream.go writes for it.
use jobsys.Base.{
  ℕ, String, Bool, true, false, ◌&&◌, ◌+◌, ◌*◌, ◌<◌, ◌≡◌, refl, ap, ◌∙◌, Option, none, some, List,
  [], ◌∷◌, ◌++◌, length, All, All-append, if◌then◌else◌, arith,
}
use jobsys.Ctl.Wire.{Piece, event_of, ping, write_piece, write_all, events_of}
use jobsys.Ctl.Bytes.{Bytes, codes, cut_prefix, trim_prefix, join, scan_lines, IsInline, scan-line}

-- The event that is being read.
pub record Reading : Type 0 where
  pub event : Bytes
  pub data_lines : List Bytes

abbrev pub nothing : Reading
nothing = record { event = []; data_lines = [] }

abbrev pub is_empty {ℓ} : {A : Type ℓ} → List A → Bool
is_empty [] = true
is_empty (x ∷ xs) = false

-- sc.Buffer's limit.
abbrev pub max_line : ℕ
max_line = 1024 * 1024

-- Why reading stops: an error of fn, a line that is too long, or the reader's own error.
pub data Stop (E : Type 0) : Type 0 where
  stopped : E → Stop E
  too_long : Stop E
  unreadable : String → Stop E

-- `fn` is the callback, and what it changes is its state; strings.TrimSpace is a parameter.
module _ {S E : Type 0} (trim_space : Bytes → Bytes) (fn : S → Bytes → Bytes → S × Option E) where
  unfoldable pub deliver : Reading → S → S × Option E
  deliver r s =
      if is_empty r.event && is_empty r.data_lines
      then (s, none)
      else fn s r.event (join (b'\n' ∷ []) r.data_lines)

  -- What a line that is not empty adds.
  unfoldable pub add_line : Reading → Bytes → Reading
  add_line r line = elim (cut_prefix (codes ":") line) [
    | some comment ↦ r
    | none ↦ elim (cut_prefix (codes "event:") line) [
      | some name ↦ record r { event = trim_space name }
      | none ↦ elim (cut_prefix (codes "data:") line) [
        | some text ↦ record r { data_lines = r.data_lines ++ trim_prefix (codes " ") text ∷ [] }
        | none ↦ r
      ]
    ]
  ]

  unfoldable pub read_all : List Bytes → Option (Stop E) → Reading → S → S × Option (Stop E)
  read_all [] end r s = (s, end)
  read_all ([] ∷ lines) end r s =
      let (s', e) = deliver r s in
      let rest = read_all lines end nothing s' in
      elim e [ some x ↦ (s', some (stopped x)) | none ↦ rest ]
  read_all ((c ∷ cs) ∷ lines) end r s = read_all lines end (add_line r (c ∷ cs)) s

  -- sc.Err(), where the reader ends in an error of its own or in none.
  abbrev pub scan_error : Bool → Option String → Option (Stop E)
  scan_error true reader = some too_long
  scan_error false none = none
  scan_error false (some e) = some (unreadable e)

  unfoldable pub read_events : Bytes → Option String → S → S × Option (Stop E)
  read_events body reader s =
      let (lines, long) = scan_lines max_line [] body in
      read_all lines (scan_error long reader) nothing s

  -- The callback on one event after another, until it fails.
  unfoldable pub run_callback : List (Bytes × Bytes) → Option (Stop E) → S → S × Option (Stop E)
  run_callback [] end s = (s, end)
  run_callback ((event, text) ∷ es) end s =
      let (s', e) = fn s event text in
      let rest = run_callback es end s' in elim e [ some x ↦ (s', some (stopped x)) | none ↦ rest ]

-- Names and texts that fit into a line each, as those of encoding/json do, and that TrimSpace
-- leaves as they are.
abbrev pub IsSendable : (Bytes → Bytes) → Piece → Type 0
IsSendable trim_space (event_of event text) =
    IsInline event
    × (IsInline text
        × ((length event + 7 < max_line)
            × ((length text + 6 < max_line) × (trim_space (b' ' ∷ event) ≡ event))))
IsSendable trim_space ping = Unit

module _ {S E : Type 0} (trim_space : Bytes → Bytes) (fn : S → Bytes → Bytes → S × Option E) where
  scan-event :
      (event text rest : Bytes)
      → IsSendable trim_space (event_of event text)
      → scan_lines max_line [] (write_piece (event_of event text) rest) ≡ (
        (codes "event: " ++ event)
            ∷ (codes "data: " ++ text)
            ∷ []
            ∷ (scan_lines max_line [] rest).0,
        (scan_lines max_line [] rest).1,
      )
  unfolding write_piece
  scan-event event text rest (he, (ht, (le, (lt, trims)))) =
      let after_text = (codes "data: " ++ text) ++ (b'\n' ∷ b'\n' ∷ rest) in
      let first =
        scan-line max_line (codes "event: " ++ event) after_text
          (All-append _ (codes "event: ") event (ground arith) he) (omega arith) in
      let second =
        scan-line max_line (codes "data: " ++ text) (b'\n' ∷ rest)
          (All-append _ (codes "data: ") text (ground arith) ht) (omega arith) in
      let third = scan-line max_line [] rest tt (omega arith) in
      let whole : write_piece (event_of event text) rest
          ≡ (codes "event: " ++ event) ++ b'\n' ∷ after_text =
        refl in
      ap (scan_lines max_line []) whole
      ∙ first
      ∙ ap (λ p. ((codes "event: " ++ event) ∷ p.0, p.1))
          (second ∙ ap (λ p. ((codes "data: " ++ text) ∷ p.0, p.1)) third)

  -- A comment of the server's, and the blank line after it.
  scan-ping :
      (rest : Bytes)
      → scan_lines max_line [] (write_piece ping rest)
        ≡ (codes ": ping" ∷ [] ∷ (scan_lines max_line [] rest).0, (scan_lines max_line [] rest).1)
  unfolding write_piece
  scan-ping rest =
      scan-line max_line (codes ": ping") (b'\n' ∷ rest) (ground arith) (omega arith)
      ∙ ap (λ p. (codes ": ping" ∷ p.0, p.1)) (scan-line max_line [] rest tt (omega arith))

  deliver-text :
      (event text : Bytes) (s : S)
      → deliver trim_space fn (record { event = event; data_lines = text ∷ [] }) s ≡ fn s event text
  unfolding deliver join
  deliver-text [] text s = refl
  deliver-text (c ∷ cs) text s = refl

  read-event :
      (event text : Bytes) (lines : List Bytes) (end : Option (Stop E)) (s : S)
      → trim_space (b' ' ∷ event) ≡ event
      → read_all trim_space fn
          ((codes "event: " ++ event) ∷ (codes "data: " ++ text) ∷ [] ∷ lines)
          end
          nothing
          s
        ≡ elim (fn s event text).1 [
          | some x ↦ ((fn s event text).0, some (stopped x))
          | none ↦ read_all trim_space fn lines end nothing (fn s event text).0
        ]
  unfolding read_all add_line cut_prefix trim_prefix
  read-event event text lines end s trims =
      ap
        (λ d. elim d.1 [
          | some x ↦ (d.0, some (stopped x))
          | none ↦ read_all trim_space fn lines end nothing d.0
        ])
        (deliver-text (trim_space (b' ' ∷ event)) text s ∙ ap (λ e. fn s e text) trims)

  read-ping :
      (lines : List Bytes) (end : Option (Stop E)) (s : S)
      → read_all trim_space fn (codes ": ping" ∷ [] ∷ lines) end nothing s
        ≡ read_all trim_space fn lines end nothing s
  unfolding read_all add_line cut_prefix deliver
  read-ping lines end s = refl

  -- What the server writes is what the client's callback is called on: each event once and in order,
  -- comments left out, until the callback or the connection ends it. The events fit into lines.
  pub read_events-write_all :
      (ps : List Piece) (reader : Option String) (s : S)
      → All (IsSendable trim_space) ps
      → read_events trim_space fn (write_all ps) reader s
        ≡ run_callback trim_space fn (events_of ps) (scan_error trim_space fn false reader) s
  unfolding read_events write_all run_callback read_all scan_lines
  read_events-write_all [] reader s h = refl
  read_events-write_all (event_of event text ∷ ps) reader s h =
      let rest = write_all ps in
      let scanned = scan-event event text rest h.0 in
      let first =
        read-event event text (scan_lines max_line [] rest).0
          (scan_error trim_space fn (scan_lines max_line [] rest).1 reader) s h.0.1.1.1.1 in
      let later = read_events-write_all ps reader (fn s event text).0 h.1 in cc
  read_events-write_all (ping ∷ ps) reader s h =
      let rest = write_all ps in
      let scanned = scan-ping rest in
      let later = read_events-write_all ps reader s h.1 in
      let skipped =
        read-ping (scan_lines max_line [] rest).0
          (scan_error trim_space fn (scan_lines max_line [] rest).1 reader) s in
      cc
