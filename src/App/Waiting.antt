-- ===== src/App/Waiting.antt =====
-- How waiting ends.
use Prim.Native.Nat.{min}
use jobsys.Base.{
  ℕ, ◌+◌, ◌*◌, ◌≤◌, ◌<◌, ◌≡◌, refl, ◌⊎◌, inl, inr, String, Bool, ◌||◌, ◌&&◌, ◌==◌, ltb, Option,
  none, some, List, [], ◌∷◌, length, Bool-cases, arith,
}
use jobsys.App.{Check, Waited, ready, give_up, wait_loop, wait_for, startup_timeout, max_backoff}

module _ (what timeout : String) where
  -- An answer that the checks justify: the first of them that passes makes it ready, and if none does
  -- before it gives up, it reports the error of the last.
  abbrev pub IsTold : List Check → ℕ → Waited → Type 0
  IsTold [] attempt answer = ⊥
  IsTold (c ∷ cs) attempt answer =
      ((c.failure ≡ none) × (answer ≡ ready attempt))
      ⊎ ((e : String) × (c.failure ≡ some e)
          × ((answer ≡ give_up what timeout attempt e) ⊎ IsTold cs (attempt + 1) answer))

  -- One round: a failed check goes on only where the next one starts by the end of the context.
  wait_loop-round :
      (over : ℕ) (c : Check) (cs : List Check) (attempt backoff time : ℕ)
      → (time + c.took + backoff ≤ over
          → IsTold cs (attempt + 1) (
              wait_loop what timeout over cs
                (attempt + 1)
                (min (backoff * 2) max_backoff)
                (time + c.took + backoff)))
      → IsTold (c ∷ cs) attempt (wait_loop what timeout over (c ∷ cs) attempt backoff time)
  unfolding wait_loop
  wait_loop-round over c cs attempt backoff time rest = checked c.failure refl
    where
      later : ℕ
      later = time + c.took + backoff

      again : Bool
      again = ltb later over || (later == over && c.favours_timer)

      checked :
          (f : Option String)
          → c.failure ≡ f
          → IsTold (c ∷ cs) attempt (wait_loop what timeout over (c ∷ cs) attempt backoff time)
      checked none k = inl (k, rw (wait_loop, k) refl)
      checked (some e) k = inr (
        e,
        k,
        elim (Bool-cases again) [
          | inl t ↦ inr (rw (wait_loop, k, t) (rest (ground arith)))
          | inr f ↦ inl (rw (wait_loop, k, f) refl)
        ],
      )

  -- At the longest backoff, enough checks use up the time.
  wait_loop-longest :
      (over : ℕ) (cs : List Check) (attempt time : ℕ)
      → time ≤ over
      → over < time + max_backoff * length cs
      → IsTold cs attempt (wait_loop what timeout over cs attempt max_backoff time)
  wait_loop-longest over [] attempt time low high = absurd (omega arith)
  wait_loop-longest over (c ∷ cs) attempt time low high =
      wait_loop-round over c cs attempt max_backoff time
        (λ h. wait_loop-longest over cs (attempt + 1) (time + c.took + max_backoff) h (omega arith))

  -- WaitFor ends within 39 checks, whenever its context ends within the startup timeout: it has
  -- succeeded if a check has, and then it asked no further, and otherwise it reports the last error.
  pub wait_for-IsTold :
      (over : ℕ) (cs : List Check)
      → over ≤ startup_timeout
      → 39 ≤ length cs
      → IsTold cs 1 (wait_for what timeout over cs)
  unfolding wait_for
  wait_for-IsTold over (a ∷ b ∷ c ∷ d ∷ cs) low many = wait_loop-round over a _ 1 500 0 λ h.
      wait_loop-round over b _ 2 1000 _ λ h.
        wait_loop-round over c _ 3 2000 _
          λ h. wait_loop-round over d cs 4 4000 _ λ h. wait_loop-longest over cs 5 _ h (omega arith)
  wait_for-IsTold over _ low many = absurd (omega arith)
