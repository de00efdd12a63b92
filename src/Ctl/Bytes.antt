-- ===== src/Ctl/Bytes.antt =====
-- The functions of strings and bufio that cmd/jobctl/main.go and internal/api/stream.go use on bytes.
use Prim.Native.Char.{code}
use jobsys.Base.{
  ℕ, String, Bool, true, false, ◌<◌, ◌≡◌, refl, ap, ◌∙◌, Option, none, some, List, [], ◌∷◌, ◌++◌,
  ◌==◌, leb, length, All, if◌then◌else◌, arith, length-append,
}
use mathlib.Core.List.{append_assoc, append-nil}

abbrev pub Bytes : Type 0
Bytes = List ℕ

-- The code points of a literal, which are its bytes if it is ASCII.
abbrev pub codes : String → Bytes
codes String.[] = []
codes (String.◌∷◌ c s) = code c ∷ codes s

-- strings.CutPrefix; strings.HasPrefix and strings.TrimPrefix are read off its answer.
unfoldable pub cut_prefix : Bytes → Bytes → Option Bytes
cut_prefix [] s = some s
cut_prefix (c ∷ cs) [] = none
cut_prefix (c ∷ cs) (d ∷ s) = let rest = cut_prefix cs s in if c == d then rest else none

unfoldable pub trim_prefix : Bytes → Bytes → Bytes
unfolding cut_prefix
trim_prefix p s = elim (cut_prefix p s) [ none ↦ s | some rest ↦ rest ]

-- strings.Join.
unfoldable pub join : Bytes → List Bytes → Bytes
join sep [] = []
join sep (p ∷ ps) = let rest = join sep ps in elim ps [ [] ↦ p | q ∷ qs ↦ p ++ sep ++ rest ]

-- A scanner's line loses one carriage return at its end.
unfoldable pub drop_cr : Bytes → Bytes
drop_cr [] = []
drop_cr (c ∷ s) =
    let rest = drop_cr s in elim s [ [] ↦ (if c == b'\r' then [] else c ∷ []) | d ∷ ds ↦ c ∷ rest ]

-- bufio.Scanner on lines, from the bytes of the line it is in: the lines, and whether it gave up on
-- one that does not fit its buffer with its line break.
unfoldable pub scan_lines : ℕ → Bytes → Bytes → List Bytes × Bool
scan_lines size [] [] = ([], false)
scan_lines size (c ∷ cs) [] = (drop_cr (c ∷ cs) ∷ [], false)
scan_lines size current (c ∷ s) =
    let (lines, long) = scan_lines size [] s in
    let longer = current ++ c ∷ [] in
    let rest = scan_lines size longer s in
    if c == b'\n'
    then (drop_cr current ∷ lines, long)
    else if leb size (length longer)
    then ([], true)
    else rest

-- Text within a line: no line breaks.
abbrev pub IsInline : Bytes → Type 0
IsInline = All (λ c. ((c == b'\n') ≡ false) × ((c == b'\r') ≡ false))

drop_cr-IsInline : (s : Bytes) → IsInline s → drop_cr s ≡ s
unfolding drop_cr
drop_cr-IsInline [] h = refl
drop_cr-IsInline (c ∷ []) h = ground arith
drop_cr-IsInline (c ∷ d ∷ s) h = ap (◌∷◌ c) (drop_cr-IsInline (d ∷ s) h.1)

-- A line that fits is scanned whole.
scan_from :
    (size : ℕ) (current line s : Bytes)
    → IsInline line
    → length (current ++ line) < size
    → scan_lines size current (line ++ b'\n' ∷ s)
      ≡ (drop_cr (current ++ line) ∷ (scan_lines size [] s).0, (scan_lines size [] s).1)
unfolding scan_lines
scan_from size current [] s h fits = rw append-nil refl
scan_from size current (c ∷ line) s h fits =
    let same = append_assoc current (c ∷ []) line in
    let fits' : length ((current ++ c ∷ []) ++ line) < size = rw same fits in
    let size_of = length-append (current ++ c ∷ []) line in
    let short : leb size (length (current ++ c ∷ [])) ≡ false = ground (arith, size_of, fits') in
    rw (h.0.0, short, scan_from size (current ++ c ∷ []) line s h.1 fits', same) refl

-- A line of a text that breaks only after it.
pub scan-line :
    (size : ℕ) (line s : Bytes)
    → IsInline line
    → length line < size
    → scan_lines size [] (line ++ b'\n' ∷ s)
      ≡ (line ∷ (scan_lines size [] s).0, (scan_lines size [] s).1)
scan-line size line s h fits =
    scan_from size [] line s h fits
    ∙ ap (λ l. (l ∷ (scan_lines size [] s).0, (scan_lines size [] s).1)) (drop_cr-IsInline line h)
