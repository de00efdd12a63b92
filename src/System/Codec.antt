-- ===== src/System/Codec.antt =====
-- A marshalling of dispatch messages and ids that can be undone, for the tests.
use Prim.Native.Char.{code}
use jobsys.Base.{
  ℕ, zero, suc, ◌≡◌, refl, ap, ◌==◌, String, false, Option, none, some, Result, ok, text_eq,
  if◌then◌else◌, Bool-cases, inl, inr, eq_iff,
}
use jobsys.Queue.{Dispatch}

-- Each character behind a mark, then another mark.
abbrev quoted : String → String → String
quoted String.[] rest = String.◌∷◌ "." rest
quoted (String.◌∷◌ c s) rest = String.◌∷◌ "x" (String.◌∷◌ c (quoted s rest))

abbrev unquoted : String → String × String
unquoted String.[] = ("", "")
unquoted (String.◌∷◌ c String.[]) = ("", "")
unquoted (String.◌∷◌ c (String.◌∷◌ d s)) =
    let (t, r) = unquoted s in if code c == b'x' then (String.◌∷◌ d t, r) else ("", String.◌∷◌ d s)

unquoted-quoted : (s rest : String) → unquoted (quoted s rest) ≡ (s, rest)
unquoted-quoted String.[] String.[] = refl
unquoted-quoted String.[] (String.◌∷◌ d r) = refl
unquoted-quoted (String.◌∷◌ c s) rest = let ih = unquoted-quoted s rest in rw ih refl

abbrev tally : ℕ → String
tally zero = ""
tally (suc n) = String.◌∷◌ "x" (tally n)

abbrev counted : String → ℕ
counted String.[] = 0
counted (String.◌∷◌ c s) = suc (counted s)

counted-tally : (n : ℕ) → counted (tally n) ≡ n
counted-tally zero = refl
counted-tally (suc n) = ap suc (counted-tally n)

abbrev pub marshal : Dispatch → String
marshal d = quoted d.run_id (quoted d.job_id (quoted d.job_type (tally d.attempt)))

abbrev pub unmarshal : String → Result String Dispatch
unmarshal s =
    let (run_id, t) = unquoted s in
    let (job_id, u) = unquoted t in
    let (job_type, v) = unquoted u in
    ok (record { run_id = run_id; job_id = job_id; job_type = job_type; attempt = counted v })

pub unmarshal-marshal : (d : Dispatch) → unmarshal (marshal d) ≡ ok d
unmarshal-marshal d =
    let a = unquoted-quoted d.run_id (quoted d.job_id (quoted d.job_type (tally d.attempt))) in
    let b = unquoted-quoted d.job_id (quoted d.job_type (tally d.attempt)) in
    let c = unquoted-quoted d.job_type (tally d.attempt) in
    let n = counted-tally d.attempt in rw (a, b, c, n) refl

abbrev pub uuid : ℕ → String
uuid id = String.◌∷◌ "x" (tally id)

abbrev pub parse_uuid : String → Option ℕ
parse_uuid String.[] = none
parse_uuid (String.◌∷◌ c s) = some (counted s)

pub parse_uuid-uuid : (id : ℕ) → parse_uuid (uuid id) ≡ some id
parse_uuid-uuid id = ap some (counted-tally id)

pub uuid-named : (id : ℕ) → text_eq (uuid id) "" ≡ false
uuid-named id = elim (Bool-cases (text_eq (uuid id) "")) [
  | inl t ↦ let same = ap parse_uuid ((eq_iff (uuid id) "").0 t) in cc
  | inr f ↦ f
]
