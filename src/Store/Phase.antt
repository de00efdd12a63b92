-- ===== src/Store/Phase.antt =====
-- The life of a run as a specification: what migrations/001_init.sql and the README say of it, with
-- times, texts and owners' names left out of the states but for the owner of the current attempt.
use jobsys.Base.{ℕ, ◌+◌, ◌≤◌, ◌<◌, ◌≡◌, ◌∙◌, ◌⊎◌, inl, inr, String, Option, some, arith}
use jobsys.Store.Models.{Status, queued, running, succeeded, failed, cancelled, Run}

pub data Phase : Type 0 where
  waiting : ℕ → Phase
  executing : ℕ → Option String → Phase
  done : Status → ℕ → Phase

-- One step of a run's life.
pub data Move (p q : Phase) : Type 0 where
  stay : q ≡ p → Move p q
  start : (a : ℕ) (w : String) → p ≡ waiting a → q ≡ executing a (some w) → Move p q
  end : (a : ℕ) (w : Option String) (s : Status) → p ≡ executing a w → q ≡ done s a → Move p q
  requeue : (a : ℕ) (w : Option String) → p ≡ executing a w → q ≡ waiting (a + 1) → Move p q
  drop : (a : ℕ) → p ≡ waiting a → q ≡ done failed a → Move p q

pub data Moves (p : Phase) : Phase → Type 0 where
  here : Moves p p
  next : {q r : Phase} → Moves p q → Move q r → Moves p r

pub Moves-trans : {p q r : Phase} → Moves p q → Moves q r → Moves p r
Moves-trans m here = m
Moves-trans m (next n s) = next (Moves-trans m n) s

abbrev pub attempt_of : Phase → ℕ
attempt_of (waiting a) = a
attempt_of (executing a w) = a
attempt_of (done s a) = a

-- Attempt `a` has ended: no step executes it again.
abbrev pub IsOver : ℕ → Phase → Type 0
IsOver a (waiting b) = a < b
IsOver a (executing b w) = a < b
IsOver a (done s b) = a ≤ b

pub Move-IsOver : (a : ℕ) (p q : Phase) → Move p q → IsOver a p → IsOver a q
Move-IsOver a p q (stay e) h = rw e h
Move-IsOver a p q (start b w e f) h = rw f (rw e at h)
Move-IsOver a p q (end b w s e f) h = rw f (let k : a < b = rw e at h in omega arith)
Move-IsOver a p q (requeue b w e f) h = rw f (let k : a < b = rw e at h in omega arith)
Move-IsOver a p q (drop b e f) h = rw f (let k : a < b = rw e at h in omega arith)

pub Moves-IsOver : (a : ℕ) (p q : Phase) → Moves p q → IsOver a p → IsOver a q
Moves-IsOver a p q here h = h
Moves-IsOver a p q (next {q = m} ms s) h = Move-IsOver a m q s (Moves-IsOver a p m ms h)

-- While attempt `a` executes it keeps its owner, until it is over.
pub Move-executing :
    (a : ℕ) (w : Option String) (p q : Phase)
    → Move p q
    → p ≡ executing a w
    → (q ≡ executing a w) ⊎ IsOver a q
Move-executing a w p q (stay e) h = inl (e ∙ h)
Move-executing a w p q (start b v e f) h = cc
Move-executing a w p q (end b v s e f) h = inr (rw f (ground arith))
Move-executing a w p q (requeue b v e f) h = inr (rw f (ground arith))
Move-executing a w p q (drop b e f) h = cc

pub Moves-executing :
    (a : ℕ) (w : Option String) (p q : Phase)
    → Moves p q
    → p ≡ executing a w
    → (q ≡ executing a w) ⊎ IsOver a q
Moves-executing a w p q here h = inl h
Moves-executing a w p q (next {q = m} ms s) h = elim (Moves-executing a w p m ms h) [
  | inl e ↦ Move-executing a w m q s e
  | inr o ↦ inr (Move-IsOver a m q s o)
]

pub Moves-one_owner :
    (a : ℕ) (v w : Option String) (p q : Phase)
    → Moves p q
    → p ≡ executing a v
    → q ≡ executing a w
    → v ≡ w
Moves-one_owner a v w p q m e f = elim (Moves-executing a v p q m e) [
  | inl g ↦ ground arith
  | inr o ↦ let k : a < a = rw f at o in absurd (omega arith)
]

-- A finished run stays as it is.
pub Moves-done : (s : Status) (a : ℕ) (p q : Phase) → Moves p q → p ≡ done s a → q ≡ done s a
Moves-done s a p q here h = h
Moves-done s a p q (next {q = m} ms st) h = go st (Moves-done s a p m ms h)
  where
    go : Move m q → m ≡ done s a → q ≡ done s a
    go (stay e) h = e ∙ h
    go (start b w e f) h = cc
    go (end b w t e f) h = cc
    go (requeue b w e f) h = cc
    go (drop b e f) h = cc

Move-attempt : (p q : Phase) → Move p q → attempt_of p ≤ attempt_of q
Move-attempt p q (stay e) = rw e (omega arith)
Move-attempt p q (start b w e f) = rw (e, f) (omega arith)
Move-attempt p q (end b w s e f) = rw (e, f) (omega arith)
Move-attempt p q (requeue b w e f) = rw (e, f) (omega arith)
Move-attempt p q (drop b e f) = rw (e, f) (omega arith)

-- Attempts are counted upwards.
pub Moves-attempt : (p q : Phase) → Moves p q → attempt_of p ≤ attempt_of q
Moves-attempt p q here = omega arith
Moves-attempt p q (next {q = m} ms s) = omega (arith, Moves-attempt p m ms, Move-attempt m q s)

-- Where a row stands in its life.
abbrev pub phase_of : Status → ℕ → Option String → Phase
phase_of queued a w = waiting a
phase_of running a w = executing a w
phase_of succeeded a w = done succeeded a
phase_of failed a w = done failed a
phase_of cancelled a w = done cancelled a

unfoldable pub phase : Run → Phase
phase r = phase_of r.status r.attempt r.worker_id
