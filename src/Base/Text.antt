-- ===== src/Base/Text.antt =====
-- Text: equality as a Boolean test, and the decimal notation that `fmt` prints.
use Prim.Native.Nat.{ℕ, zero, suc, ◌/◌, ◌%◌}
use Prim.Native.String.{String, ◌++◌}
use mathlib.Core.Bool.{Bool, true, false}
use mathlib.Core.Path.{◌≡◌, refl}
use mathlib.Core.Option.{Option, none, some}
use text.Mathlib.Text.{◌==◌}
use text.Mathlib.TextEquality.{eq_iff}
use text.Mathlib.TextLemmas.{append-eq-nil_iff}
use jobsys.Base.Tests.{if◌then◌else◌, ltb, ◌==◌ as nat_eq, Bool-cases}
use mathlib.Core.Logic.{inl, inr}

abbrev pub text_eq : String → String → Bool
text_eq s t = s == t

infixr 65 ◌<>◌
abbrev pub ◌<>◌ : String → String → String
s <> t = s ++ t

-- `column = $1` in SQL, which is not satisfied when the column is NULL.
abbrev pub is_text : Option String → String → Bool
is_text none t = false
is_text (some s) t = s == t

digit : ℕ → String
digit n =
    if nat_eq n 0
    then "0"
    else if nat_eq n 1
    then "1"
    else if nat_eq n 2
    then "2"
    else if nat_eq n 3
    then "3"
    else if nat_eq n 4
    then "4"
    else if nat_eq n 5
    then "5"
    else if nat_eq n 6
    then "6"
    else if nat_eq n 7
    then "7"
    else if nat_eq n 8
    then "8"
    else "9"

decimal_from : ℕ → ℕ → String → String
unfolding digit
decimal_from zero n acc = acc
decimal_from (suc fuel) n acc =
    let rest = decimal_from fuel (n / 10) (digit (n % 10) ++ acc) in
    if ltb n 10 then digit n ++ acc else rest

-- `%d` and `%s` of a number that is not negative: n + 1 rounds are enough for its digits.
unfoldable pub decimal : ℕ → String
unfolding decimal_from
decimal n = decimal_from (suc n) n ""

append-filled : (s t : String) → (s == "") ≡ false → ((s ++ t) == "") ≡ false
append-filled s t h = elim (Bool-cases ((s ++ t) == "")) [
  | inl e ↦
      let nil : s ≡ "" = (append-eq-nil_iff.0 ((eq_iff (s ++ t) "").0 e)).0 in
      let again : (s == "") ≡ true = (eq_iff s "").1 nil in cc
  | inr f ↦ f
]

if-filled :
    (b : Bool) (s t : String)
    → (s == "") ≡ false
    → (t == "") ≡ false
    → ((if b then s else t) == "") ≡ false
if-filled true s t h k = h
if-filled false s t h k = k

digit-nonempty : (n : ℕ) → (digit n == "") ≡ false
unfolding digit
digit-nonempty n =
    let from_8 = if-filled (nat_eq n 8) "8" "9" refl refl in
    let from_7 = if-filled (nat_eq n 7) "7" _ refl from_8 in
    let from_6 = if-filled (nat_eq n 6) "6" _ refl from_7 in
    let from_5 = if-filled (nat_eq n 5) "5" _ refl from_6 in
    let from_4 = if-filled (nat_eq n 4) "4" _ refl from_5 in
    let from_3 = if-filled (nat_eq n 3) "3" _ refl from_4 in
    let from_2 = if-filled (nat_eq n 2) "2" _ refl from_3 in
    let from_1 = if-filled (nat_eq n 1) "1" _ refl from_2 in
    if-filled (nat_eq n 0) "0" _ refl from_1

digit-filled : (n : ℕ) (acc : String) → ((digit n ++ acc) == "") ≡ false
digit-filled n acc = append-filled (digit n) acc (digit-nonempty n)

decimal_from-filled :
    (fuel n : ℕ) (acc : String) → (acc == "") ≡ false → (decimal_from fuel n acc == "") ≡ false
unfolding decimal_from
decimal_from-filled zero n acc h = h
decimal_from-filled (suc fuel) n acc h =
    let rest =
      decimal_from-filled fuel (n / 10) (digit (n % 10) ++ acc) (digit-filled (n % 10) acc) in
    elim (Bool-cases (ltb n 10)) [ inl t ↦ rw t (digit-filled n acc) | inr f ↦ rw f rest ]

-- `%d` prints something.
pub decimal-filled : (n : ℕ) → text_eq (decimal n) "" ≡ false
unfolding decimal decimal_from
decimal-filled n =
    let rest = decimal_from-filled n (n / 10) (digit (n % 10) ++ "") (digit-filled (n % 10) "") in
    elim (Bool-cases (ltb n 10)) [ inl t ↦ rw t (digit-filled n "") | inr f ↦ rw f rest ]
