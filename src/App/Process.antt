-- ===== src/App/Process.antt =====
-- What the commands hold open: the resources that a process opens and closes, in order, and its
-- deferred calls.
use jobsys.Base.{
  ◌≡◌, refl, ℕ, String, Bool, true, false, Option, none, some, List, [], ◌∷◌, ◌++◌, if◌then◌else◌,
  Bool-cases, inl, inr,
}

-- The pool of connections, the writer and the reader of Kafka, and the goroutines that main waits
-- for.
pub data Resource : Type 0 where
  postgres publisher consumer scheduler listener : Resource

pub data Act : Type 0 where
  opens : Resource → Act
  closes : Resource → Act
  works : Act

-- How a function of the process ended: `waiting` stands for one that has not.
pub data Ended (A : Type 0) : Type 0 where
  gave : A → Ended A
  failed : String → Ended A
  waiting : Ended A

-- Something that is done first.
unfoldable pub acting : {A : Type 0} → Act → List Act × Ended A → List Act × Ended A
acting a (acts, outcome) = (a ∷ acts, outcome)

-- A deferred call, which runs however the function returns.
unfoldable pub deferred : {A : Type 0} → Act → List Act × Ended A → List Act × Ended A
deferred a (acts, waiting) = (acts, waiting)
deferred a (acts, gave x) = (acts ++ a ∷ [], gave x)
deferred a (acts, failed e) = (acts ++ a ∷ [], failed e)

-- What a function does next with the value of a call, or that it returns the call's error.
unfoldable pub and_then :
    {A B : Type 0} → List Act × Ended A → (A → List Act × Ended B) → List Act × Ended B
and_then (acts, waiting) next = (acts, waiting)
and_then (acts, failed e) next = (acts, failed e)
and_then (acts, gave a) next = let (more, outcome) = next a in (acts ++ more, outcome)

-- os.Exit(1) after an error.
abbrev pub exit_status : {A : Type 0} → Ended A → Option ℕ
exit_status waiting = none
exit_status (gave a) = some 0
exit_status (failed e) = some 1

abbrev pub same : Resource → Resource → Bool
same postgres postgres = true
same publisher publisher = true
same consumer consumer = true
same scheduler scheduler = true
same listener listener = true
same _ _ = false

-- What is held after some acts, the latest first; none if something else is closed than what was
-- opened last.
unfoldable pub held : List Act → List Resource → Option (List Resource)
held [] open_now = some open_now
held (opens r ∷ acts) open_now = held acts (r ∷ open_now)
held (works ∷ acts) open_now = held acts open_now
held (closes r ∷ acts) [] = none
held (closes r ∷ acts) (top ∷ below) =
    let rest = held acts below in if same r top then rest else none

abbrev pub held_then : List Act → Option (List Resource) → Option (List Resource)
held_then acts none = none
held_then acts (some open_now) = held acts open_now

pub held-append :
    (xs ys : List Act) (open_now : List Resource)
    → held (xs ++ ys) open_now ≡ held_then ys (held xs open_now)
unfolding held
held-append [] ys open_now = refl
held-append (opens r ∷ xs) ys open_now = held-append xs ys (r ∷ open_now)
held-append (works ∷ xs) ys open_now = held-append xs ys open_now
held-append (closes r ∷ xs) ys [] = refl
held-append (closes r ∷ xs) ys (top ∷ below) = elim (Bool-cases (same r top)) [
  | inl t ↦ rw t (held-append xs ys below)
  | inr f ↦ rw f refl
]
