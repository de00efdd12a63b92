-- ===== src/Main/Outcomes.antt =====
-- How the worker and the API server end.
use jobsys.Base.{
  ◌≡◌, ◌≤◌, refl, ap, ◌⊎◌, inl, inr, ◌*◌, String, Option, some, none, List, [], ◌∷◌, ◌++◌, length,
  Result, ok, err, Bool-cases, text_eq, sort_with,
}
use jobsys.Base.Int.{ℤ, pos}
use jobsys.Base.Unique.{Distinct}
use jobsys.App.{startup_timeout, env_duration}
use jobsys.App.Config.{Host, Settings, load_config, second}
use jobsys.App.Process.{
  Act, closes, works, postgres, publisher, scheduler, Ended, gave, failed, waiting, deferred,
  and_then, acting, held, exit_status,
}
use jobsys.App.Leaving.{
  HasEnded, Leaves, acting-Leaves, deferred-Leaves, and_then-gave, deferred-gave,
}
use jobsys.Main.Closing.{
  with_db-Leaves, with_topic-Leaves, consuming-Leaves, ended_by-HasEnded, ended_by-gave,
}
use jobsys.Main.Worker.{Surroundings, Texts, ended_by, opened_db, found_topic, consuming, run}
use jobsys.Main.Api.{
  signalled, served, serving, serve, migrate_command, main, is_migrate, schema_after,
}
use jobsys.Store.Migrate.{Files, Postgres, Schema, Trip, migrate, text_leb}
use jobsys.Store.Migrate.Again.{migrate-migrate}
use jobsys.Store.Migrate.Names.{missing}

consuming-gave :
    (host : Host) (texts : Texts) (stopped : Option String)
    → (consuming host texts stopped).1 ≡ gave tt
    → stopped ≡ none
unfolding acting deferred
consuming-gave host texts none h = refl
consuming-gave host texts (some e) h = cc

exits :
    {A : Type 0} (x : Ended A)
    → HasEnded x
    → (exit_status x ≡ some 1) ⊎ ((exit_status x ≡ some 0) × (a : A) × (x ≡ gave a))
exits (gave a) h = inr (refl, a, refl)
exits (failed e) h = inl refl
exits waiting h = elim h [ inl (a, k) ↦ cc | inr (w, k) ↦ cc ]

closed :
    (x : List Act × Ended (Unit {0}))
    → Leaves [] [] x
    → (held x.0 [] ≡ some []) × ((exit_status x.1 ≡ some 0) ⊎ (exit_status x.1 ≡ some 1))
closed x h = (h.1, elim (exits x.1 h.0) [ inl k ↦ inr k | inr (k, _, _) ↦ inl k ])

module _ (host : Host) (texts : Texts) (s : Surroundings) (db_soon : s.db_over ≤ startup_timeout)
    (db_enough : 39 ≤ length s.connecting) (topic_soon : s.topic_over ≤ startup_timeout)
    (topic_enough : 39 ≤ length s.asking) where
  module _ (running : Settings → Option String) where
    abbrev out : List Act × Ended (Unit {0})
    out = run host texts running s

    run-Leaves : Leaves [] [] out
    unfolding run held
    run-Leaves = loaded (load_config host) refl
      where
        loaded : (c : Result String Settings) → load_config host ≡ c → Leaves [] [] out
        loaded (err e) k = rw (run, k) (inr (e, refl), refl)
        loaded (ok settings) k =
            let body = consuming host texts (running settings) in
            rw (run, k)
              (with_db-Leaves host texts s db_soon db_enough topic_soon topic_enough _ (
                with_topic-Leaves host texts s db_soon db_enough topic_soon topic_enough
                  (postgres ∷ []) body
                  (consuming-Leaves host texts s db_soon db_enough topic_soon topic_enough
                    (running settings))))

    run-gave :
        out.1 ≡ gave tt
        → (settings : Settings) × (load_config host ≡ ok settings) × (running settings ≡ none)
    unfolding run
    run-gave h = loaded (load_config host) refl
      where
        loaded :
            (c : Result String Settings)
            → load_config host ≡ c
            → (settings : Settings) × (load_config host ≡ ok settings) × (running settings ≡ none)
        loaded (err e) k = let h' = rw (run, k) at h in cc
        loaded (ok settings) k =
            let h' = rw (run, k) at h in
            let (a, _, later) = and_then-gave _ (opened_db host texts s) tt h' in
            let topic =
              deferred-gave (closes postgres)
                (and_then (found_topic host texts s) λ _. consuming host texts (running settings))
                tt later in
            let (n, _, last) = and_then-gave _ (found_topic host texts s) tt topic in
            (settings, k, consuming-gave host texts (running settings) last)

    -- A worker process whose contexts for Postgres and Kafka end by the startup timeout ends its start
    -- within 39 attempts each. It closes all that it has opened, in reverse order. It exits with 1, or
    -- with 0; then its settings were accepted, and Run worked under them and reported no error.
    pub run-closes :
        (held out.0 [] ≡ some [])
        × ((exit_status out.1 ≡ some 1)
            ⊎ ((exit_status out.1 ≡ some 0)
                × (settings : Settings) × (load_config host ≡ ok settings)
                × (running settings ≡ none)))
    run-closes = (
      run-Leaves.1,
      elim (exits out.1 run-Leaves.0) [
        | inl k ↦ inl k
        | inr (k, _, h) ↦
            let (settings, accepted, worked) = run-gave h in inr (k, settings, accepted, worked)
      ],
    )

  -- The API server, and `api migrate`.
  served-Leaves :
      (e : Option String)
      → Leaves
          (scheduler ∷ publisher ∷ postgres ∷ [])
          (publisher ∷ postgres ∷ [])
          (served host texts (signalled e))
  unfolding held
  served-Leaves e = (ended_by-HasEnded e, refl)

  serve-Leaves : (e : Option String) → Leaves [] [] (serve host texts (signalled e) s)
  unfolding serve held
  serve-Leaves e =
      every (env_duration host.getenv host.parse_duration "SCHEDULER_INTERVAL" (pos (2 * second)))
        refl
    where
      every :
          (c : Result String ℤ)
          → env_duration host.getenv host.parse_duration "SCHEDULER_INTERVAL" (pos (2 * second)) ≡ c
          → Leaves [] [] (serve host texts (signalled e) s)
      every (err why) k = rw (serve, k) (inr (why, refl), refl)
      every (ok interval) k =
          rw (serve, k)
            (with_db-Leaves host texts s db_soon db_enough topic_soon topic_enough _ (
              with_topic-Leaves host texts s db_soon db_enough topic_soon topic_enough
                (postgres ∷ []) (serving host texts (signalled e))
                (acting-Leaves publisher (postgres ∷ []) (postgres ∷ []) _ (
                  deferred-Leaves publisher (publisher ∷ postgres ∷ []) (postgres ∷ []) _ (
                    acting-Leaves scheduler (publisher ∷ postgres ∷ []) (publisher ∷ postgres ∷ [])
                      _ (served-Leaves e))))))

  module _ {S : Type 0} (pg : Postgres S) (files : Files) (trip : Trip) (schema : Schema S) where
    migrate-Leaves : Leaves [] [] (migrate_command host texts pg files trip s schema).0
    unfolding migrate_command held
    migrate-Leaves =
        with_db-Leaves host texts s db_soon db_enough topic_soon topic_enough _
          (ended_by-HasEnded (migrate pg files trip schema).1.1, refl)

    -- An API process, `api migrate` included, whose contexts for Postgres and Kafka end by the startup
    -- timeout, and whose server stops for a signal if it starts to listen, ends with everything closed
    -- that it has opened, in reverse order: the scheduler after the listener and before the publisher
    -- and the pool, which it uses.
    pub main-closes :
        (args : List String) (e : Option String)
        → let out = (main host texts pg files args trip (signalled e) s schema).0 in
          (held out.0 [] ≡ some []) × ((exit_status out.1 ≡ some 0) ⊎ (exit_status out.1 ≡ some 1))
    unfolding main
    main-closes args e = elim (Bool-cases (is_migrate host texts pg files args)) [
      | inl t ↦ rw t (closed (migrate_command host texts pg files trip s schema).0 migrate-Leaves)
      | inr f ↦ rw f (closed (serve host texts (signalled e) s) (serve-Leaves e))
    ]

    migrate_command-gave :
        (migrate_command host texts pg files trip s schema).0.1 ≡ gave tt
        → ((migrate pg files trip schema).1.1 ≡ none)
          × ((migrate_command host texts pg files trip s schema).1
              ≡ (migrate pg files trip schema).0)
    unfolding migrate_command
    migrate_command-gave h =
        let (a, up, later) = and_then-gave _ (opened_db host texts s) tt h in
        let e = (migrate pg files trip schema).1.1 in
        let ended = deferred-gave (closes postgres) (works ∷ [], ended_by e) tt later in
        (ended_by-gave e ended, ap (schema_after host texts pg files trip schema) up)

    -- If `api migrate` exits with 0, the schema has recorded exactly the files that it lacked, in the
    -- order of their names, behind those it had. The files have different names.
    pub migrate_command-missing :
        (names : List String)
        → files.glob ≡ ok names
        → Distinct text_eq names
        → let out = migrate_command host texts pg files trip s schema in
          exit_status out.0.1 ≡ some 0
          → out.1.versions ≡ schema.versions ++ missing schema.versions (sort_with text_leb names)
    migrate_command-missing names listed d h = elim (exits _ migrate-Leaves.0) [
      | inl k ↦ cc
      | inr (_, _, ended) ↦
          let (fine, same) = migrate_command-gave ended in
          let (applied, (grown, _)) =
            migrate-migrate pg files trip trip names schema listed d fine in
          rw (same, grown, applied) refl
    ]
