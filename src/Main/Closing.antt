-- ===== src/Main/Closing.antt =====
-- Each command ends with everything closed that it has opened, whatever its start meets.
use jobsys.Base.{
  ℕ, ◌≡◌, ◌≤◌, refl, ◌⊎◌, inl, inr, String, Option, some, none, List, [], ◌∷◌, length,
}
use jobsys.App.{startup_timeout}
use jobsys.App.Config.{Host}
use jobsys.App.Process.{
  Act, Resource, closes, postgres, publisher, consumer, Ended, gave, failed, deferred, and_then,
  held,
}
use jobsys.App.Leaving.{HasEnded, Leaves, acting-Leaves, deferred-Leaves, and_then-Leaves}
use jobsys.App.Opened.{open_db-held, wait_for_topic-ended}
use jobsys.Main.Worker.{Surroundings, Texts, ended_by, opened_db, found_topic, brokers, consuming}

pub ended_by-HasEnded : (e : Option String) → HasEnded (ended_by e)
ended_by-HasEnded none = inl (tt, refl)
ended_by-HasEnded (some e) = inr (e, refl)

pub ended_by-gave : (e : Option String) → ended_by e ≡ gave tt → e ≡ none
ended_by-gave none h = refl
ended_by-gave (some e) h = cc

module _ (host : Host) (texts : Texts) (s : Surroundings) (db_soon : s.db_over ≤ startup_timeout)
    (db_enough : 39 ≤ length s.connecting) (topic_soon : s.topic_over ≤ startup_timeout)
    (topic_enough : 39 ≤ length s.asking) where
  -- A function that opens the pool first, and closes it when it returns.
  pub with_db-Leaves :
      (next : List Act × Ended (Unit {0}))
      → Leaves (postgres ∷ []) (postgres ∷ []) next
      → Leaves [] [] (and_then (opened_db host texts s) λ _. deferred (closes postgres) next)
  unfolding held
  with_db-Leaves next h =
      and_then-Leaves _ [] (postgres ∷ []) [] (opened_db host texts s) opened
        λ _. deferred-Leaves postgres (postgres ∷ []) [] _ h
    where
      opened :
          ((a : Unit {0}) × ((opened_db host texts s).1 ≡ gave a)
            × (held (opened_db host texts s).0 [] ≡ some (postgres ∷ [])))
          ⊎ ((why : String) × ((opened_db host texts s).1 ≡ failed why)
              × (held (opened_db host texts s).0 [] ≡ some []))
      opened =
          elim (open_db-held host.getenv texts.timeout texts.parse_config [] s.db_over s.connecting
            db_soon db_enough) [ inl (e, k) ↦ inl (tt, e, k) | inr (why, e, k) ↦ inr (why, e, k) ]

  -- What waits for the topic first.
  pub with_topic-Leaves :
      (st : List Resource) (next : List Act × Ended (Unit {0}))
      → Leaves st st next
      → Leaves st st (and_then (found_topic host texts s) λ _. next)
  unfolding held
  with_topic-Leaves st next h = and_then-Leaves _ st st st (found_topic host texts s) found λ _. h
    where
      found :
          ((n : ℕ) × ((found_topic host texts s).1 ≡ gave n) × (held [] st ≡ some st))
          ⊎ ((why : String) × ((found_topic host texts s).1 ≡ failed why) × (held [] st ≡ some st))
      found =
          elim (wait_for_topic-ended host.getenv texts.timeout (brokers host texts) s.topic_over
            s.asking topic_soon topic_enough) [
              | inl (n, e) ↦ inl (n, e, refl)
              | inr (why, e) ↦ inr (why, e, refl)
            ]

  -- A worker.
  pub consuming-Leaves :
      (stopped : Option String)
      → Leaves (postgres ∷ []) (postgres ∷ []) (consuming host texts stopped)
  unfolding held
  consuming-Leaves stopped = acting-Leaves publisher (postgres ∷ []) (postgres ∷ []) _ (
      deferred-Leaves publisher (publisher ∷ postgres ∷ []) (postgres ∷ []) _ (
        acting-Leaves consumer (publisher ∷ postgres ∷ []) (publisher ∷ postgres ∷ []) _ (
          deferred-Leaves consumer (consumer ∷ publisher ∷ postgres ∷ [])
            (publisher ∷ postgres ∷ []) _ (ended_by-HasEnded stopped, refl))))
