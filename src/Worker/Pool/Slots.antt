-- ===== src/Worker/Pool/Slots.antt =====
-- How many jobs a worker runs at once.
use jobsys.Base.{
  ℕ, suc, false, ◌⊎◌, inl, inr, ◌+◌, ◌≤◌, ◌≡◌, refl, String, Option, List, [], ◌∷◌, ◌++◌, ◌∙◌, sym,
  Result, length, arith,
}
use jobsys.Queue.{Dispatch}
use jobsys.Store.Models.{StoreError}
use jobsys.Worker.Env.{Config, World}
use jobsys.Worker.Pool.{
  is_returned, loading, working, Stage, selecting, fetching, answered, draining, returned, Task,
  Pool, start, Step, cancels, takes_slot, stops, cannot_fetch, fetches, skips, starts, loads,
  cannot_load, ends, hands_back, returns, maintains, others, Reachable, here, next,
}

-- The slots that the consume loop itself holds.
abbrev pub held : Stage → ℕ
held selecting = 0
held fetching = 1
held (answered r) = 1
held (draining e) = 0
held (returned e) = 0

pub record IsBounded (limit : ℕ) (p : Pool) : Type 0 where
  pub counted : p.slots ≡ length p.tasks + held p.stage
  pub limited : p.slots ≤ limit
  pub drained : (e : Option String) → p.stage ≡ returned e → p.tasks ≡ []

-- A list that has a task is not empty.
absent : (before after : List Task) (t : Task) → before ++ t ∷ after ≡ [] → ⊥
absent [] after t h = cc
absent (s ∷ before) after t h = cc

length-middle : (ts us : List Task) (t : Task) → length (ts ++ t ∷ us) ≡ suc (length (ts ++ us))
length-middle [] us t = refl
length-middle (s ∷ ts) us t = omega (arith, length-middle ts us t)

removed-IsBounded :
    {limit : ℕ} (p : Pool) (w : World) (before after : List Task) (t : Task) (n : ℕ)
    → p.tasks ≡ before ++ t ∷ after
    → p.slots ≡ suc n
    → IsBounded limit p
    → IsBounded limit (record p { tasks = before ++ after; slots = n; world = w })
removed-IsBounded p w before after t n of taken h =
    let counted = rw of at h.counted in
    let limited = h.limited in
    let size = length-middle before after t in
    record {
      counted = omega arith;
      limited = omega arith;
      drained = λ e x. absurd (absent before after _ (sym of ∙ h.drained e x));
    }

module _ (cfg : Config) (path : String → ℕ → String) (message : StoreError → String)
    (unmarshal : String → Result String Dispatch) (parse_uuid : String → Option ℕ) where
  Step-IsBounded :
      (p q : Pool)
      → Step cfg path message unmarshal parse_uuid p q
      → IsBounded cfg.concurrency p
      → IsBounded cfg.concurrency q
  Step-IsBounded p q cancels h = record {
    counted = h.counted;
    limited = h.limited;
    drained = h.drained;
  }
  Step-IsBounded p q (takes_slot at free) h =
      let counted = rw at at h.counted in
      record { counted = omega arith; limited = omega arith; drained = λ e x. cc }
  Step-IsBounded p q (stops at over) h = record {
    counted = rw at at h.counted;
    limited = h.limited;
    drained = λ e x. cc;
  }
  Step-IsBounded p q (cannot_fetch e n at taken) h =
      let counted = rw at at h.counted in
      let limited = h.limited in
      record { counted = omega arith; limited = omega arith; drained = λ e x. cc }
  Step-IsBounded p q (fetches fault now value at) h = record {
    counted = rw at at h.counted;
    limited = h.limited;
    drained = λ e x. cc;
  }
  Step-IsBounded p q (skips n at taken) h =
      let counted = rw at at h.counted in
      let limited = h.limited in
      record { counted = omega arith; limited = omega arith; drained = λ e x. cc }
  Step-IsBounded p q (starts r at) h =
      let counted = rw at at h.counted in
      record { counted = omega arith; limited = h.limited; drained = λ e x. cc }
  Step-IsBounded p q (loads r j before after fault of found) h =
      let counted = rw of at h.counted in
      let size = length-middle before after (loading r) in
      let size' = length-middle before after (working r j) in
      record {
        counted = omega arith;
        limited = h.limited;
        drained = λ e x. absurd (absent before after _ (sym of ∙ h.drained e x));
      }
  Step-IsBounded p q (cannot_load r e before after n env of taken why) h =
      removed-IsBounded p _ before after (loading r) n of taken h
  Step-IsBounded p q (ends r j before after n env outcome of taken cause) h =
      removed-IsBounded p _ before after (working r j) n of taken h
  Step-IsBounded p q (hands_back e at) h = record {
    counted = h.counted;
    limited = h.limited;
    drained = h.drained;
  }
  Step-IsBounded p q (returns e at none_left) h = record {
    counted = rw at at h.counted;
    limited = h.limited;
    drained = λ e x. none_left;
  }
  Step-IsBounded p q (maintains pass on) h = record {
    counted = h.counted;
    limited = h.limited;
    drained = h.drained;
  }
  Step-IsBounded p q (others c) h = record {
    counted = h.counted;
    limited = h.limited;
    drained = h.drained;
  }

  -- The worker never executes more runs at once than its concurrency, and each of them holds a slot,
  -- whatever comes in between: a slot is given back exactly where a message was of no use or a run has
  -- ended. Once Run has returned nothing is executed.
  pub Reachable-slots :
      (w : World) (p : Pool)
      → Reachable cfg path message unmarshal parse_uuid (start w) p
      → (p.slots ≡ length p.tasks + held p.stage)
        × ((length p.tasks + held p.stage ≤ cfg.concurrency)
            × ((p.tasks ≡ []) ⊎ (is_returned p.stage ≡ false)))
  Reachable-slots w p h =
      let b = bounded p h in
      let counted = b.counted in
      let limited = b.limited in (counted, (omega arith, ended p.stage refl b.drained))
    where
      ended :
          (s : Stage)
          → p.stage ≡ s
          → ((e : Option String) → p.stage ≡ returned e → p.tasks ≡ [])
          → (p.tasks ≡ []) ⊎ (is_returned p.stage ≡ false)
      ended selecting at d = inr (rw at refl)
      ended fetching at d = inr (rw at refl)
      ended (answered r) at d = inr (rw at refl)
      ended (draining e) at d = inr (rw at refl)
      ended (returned e) at d = inl (d e at)

      bounded :
          (q : Pool)
          → Reachable cfg path message unmarshal parse_uuid (start w) q
          → IsBounded cfg.concurrency q
      bounded q here = record { counted = refl; limited = omega arith; drained = λ e x. cc }
      bounded q (next {q = r} reached step) = Step-IsBounded r q step (bounded r reached)
