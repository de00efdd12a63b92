-- ===== src/App/Opened.antt =====
-- How OpenDB and WaitForTopic end, and what they leave open.
use jobsys.Base.{
  ℕ, suc, ◌+◌, ◌≤◌, ◌≡◌, refl, ap, ◌∙◌, ◌⊎◌, inl, inr, String, Option, none, some, List, [], ◌∷◌,
  ◌++◌, map, length, length-map, take, arith,
}
use jobsys.App.{Check, Waited, ready, not_ready, wait_for, last_error, startup_timeout}
use jobsys.App.Waiting.{IsTold, wait_for-IsTold}
use jobsys.App.Process.{Act, Resource, postgres, gave, failed, held, held-append, held_then}
use jobsys.App.Startup.{
  Connecting, Asking, open_store, postgres_opened, open_db, wait_for_topic, connect_check,
  topic_check, flatten, ended_of, dsn,
}

-- An attempt that fails leaves nothing open, one that succeeds the pool.
module _ (parse_config : String → Option String) (dsn : String) (c : Connecting) where
  pinged-acts :
      (p : Option String) (st : List Resource)
      → (((postgres_opened p).1 ≡ none) × (held (postgres_opened p).0 st ≡ some (postgres ∷ st)))
        ⊎ ((e : String) × ((postgres_opened p).1 ≡ some e)
            × (held (postgres_opened p).0 st ≡ some st))
  unfolding held
  pinged-acts none st = inl (refl, refl)
  pinged-acts (some e) st = inr (_, refl, refl)

  abbrev attempt : List Act × Option String
  attempt = open_store parse_config dsn c

  abbrev Attempted : List Resource → Type 0
  Attempted st =
      ((attempt.1 ≡ none) × (held attempt.0 st ≡ some (postgres ∷ st)))
      ⊎ ((e : String) × (attempt.1 ≡ some e) × (held attempt.0 st ≡ some st))

  created-acts :
      (f : Option String)
      → c.creating ≡ f
      → parse_config dsn ≡ none
      → (st : List Resource) → Attempted st
  unfolding open_store held
  created-acts none k p st = rw (open_store, p, k) (pinged-acts c.pinging st)
  created-acts (some e) k p st = rw (open_store, p, k) (inr (_, refl, refl))

  parsed-acts : (f : Option String) → parse_config dsn ≡ f → (st : List Resource) → Attempted st
  unfolding open_store held
  parsed-acts none p st = created-acts c.creating refl p st
  parsed-acts (some e) p st = rw (open_store, p) (inr (_, refl, refl))

module _ (getenv : String → String) (timeout : String) (parse_config : String → Option String)
    (st : List Resource) where
  abbrev acts_of : Connecting → List Act
  acts_of c = (open_store parse_config (dsn getenv timeout) c).0

  abbrev made : ℕ → List Connecting → List Act
  made n cs = flatten (map acts_of (take n cs))

  -- The loop ends at a check, and holds the pool exactly if that succeeded.
  abbrev Opened : ℕ → List Connecting → Waited → Type 0
  Opened number cs answer =
      (n : ℕ) × (((answer ≡ ready (number + n))
          × (held (made (suc n) cs) st ≡ some (postgres ∷ st)))
        ⊎ ((e : String) × (answer ≡ not_ready (number + n) e)
            × (held (made (suc n) cs) st ≡ some st)))

  told-Opened :
      (cs : List Connecting) (number : ℕ) (answer : Waited)
      → IsTold "postgres" timeout (map (connect_check getenv timeout parse_config) cs) number answer
      → Opened number cs answer
  unfolding held
  told-Opened [] number answer h = absurd h
  told-Opened (c ∷ cs) number answer h = elim (parsed-acts parse_config source c _ refl st) [
    | inl (passed, balance) ↦ elim h [
      | inl (_, k) ↦ (0, inl (k ∙ ap ready (omega arith), joined _ _ balance))
      | inr (e, f, _) ↦ cc
    ]
    | inr (e, said, balance) ↦ elim h [
      | inl (f, k) ↦ cc
      | inr (e', f, inl k) ↦ (
        0,
        inr (
          _,
          k ∙ ap (λ i. not_ready i (last_error "postgres" timeout e')) (omega arith),
          joined _ _ balance,
        ),
      )
      | inr (e', f, inr more) ↦
          let (n, rest) = told-Opened cs (number + 1) answer more in
          (
            suc n,
            elim rest [
              | inl (k, held_on) ↦ inl (k ∙ ap ready (omega arith), joined _ _ balance ∙ held_on)
              | inr (e', k, released) ↦
                  inr
                    (e', k ∙ ap (λ i. not_ready i e') (omega arith), joined _ _ balance ∙ released)
            ],
          )
    ]
  ]
    where
      source : String
      source = dsn getenv timeout

      joined :
          (rest : List Act) (now : List Resource)
          → held (acts_of c) st ≡ some now
          → held (acts_of c ++ rest) st ≡ held rest now
      joined rest now e = held-append (acts_of c) rest st ∙ ap (held_then rest) e

  -- OpenDB ends within 39 attempts, with the pool or with an error and nothing.
  pub open_db-held :
      (over : ℕ) (cs : List Connecting)
      → over ≤ startup_timeout
      → 39 ≤ length cs
      → let out = open_db getenv timeout parse_config over cs in
        ((out.1 ≡ gave tt) × (held out.0 st ≡ some (postgres ∷ st)))
        ⊎ ((e : String) × (out.1 ≡ failed e) × (held out.0 st ≡ some st))
  unfolding open_db
  open_db-held over cs low many =
      let checks = map (connect_check getenv timeout parse_config) cs in
      let told =
        wait_for-IsTold "postgres" timeout over checks low
          (rw (length-map (connect_check getenv timeout parse_config) cs) many) in
      let answer = wait_for "postgres" timeout over checks in
      let (n, opened) = told-Opened cs 1 answer told in
      elim opened [
        | inl (k, held_on) ↦
            let k' : answer ≡ ready (suc n) = k ∙ ap ready (omega arith) in
            inl (rw k' refl, rw k' held_on)
        | inr (e, k, released) ↦
            let k' : answer ≡ not_ready (suc n) e = k ∙ ap (λ i. not_ready i e) (omega arith) in
            inr (e, rw k' refl, rw k' released)
      ]

told-ended :
    {A : Type 0} (what timeout : String) (cs : List Check) (number : ℕ) (answer : Waited) (a : A)
    → IsTold what timeout cs number answer
    → (ended_of answer a ≡ gave a) ⊎ ((e : String) × (ended_of answer a ≡ failed e))
told-ended what timeout [] number answer a h = absurd h
told-ended what timeout (c ∷ cs) number answer a (inl (_, k)) = inl (ap (λ w. ended_of w a) k)
told-ended what timeout (c ∷ cs) number answer a (inr (e, _, inl k)) =
    inr (_, ap (λ w. ended_of w a) k)
told-ended what timeout (c ∷ cs) number answer a (inr (e, _, inr more)) =
    told-ended what timeout cs (number + 1) answer a more

-- WaitForTopic ends too.
pub wait_for_topic-ended :
    (getenv : String → String) (timeout : String) (brokers : List String) (over : ℕ)
    (asked : List Asking)
    → over ≤ startup_timeout
    → 39 ≤ length asked
    → let out = wait_for_topic getenv timeout brokers over asked in
      ((n : ℕ) × (out ≡ gave n)) ⊎ ((e : String) × (out ≡ failed e))
unfolding wait_for_topic
wait_for_topic-ended getenv timeout brokers over asked low many =
    let check = topic_check getenv timeout brokers in
    let checks = map check asked in
    let told =
      wait_for-IsTold "kafka topic job-dispatch" timeout over checks low
        (rw (length-map check asked) many) in
    let waited = wait_for "kafka topic job-dispatch" timeout over checks in
    elim (told-ended "kafka topic job-dispatch" timeout checks 1 waited _ told) [
      | inl k ↦ inl (_, k)
      | inr (e, k) ↦ inr (e, k)
    ]
