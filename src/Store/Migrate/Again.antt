-- ===== src/Store/Migrate/Again.antt =====
-- What a Migrate that reports no error has done, and what the next one does.
use jobsys.Base.{
  ◌≡◌, refl, sym, ap, ◌∙◌, String, Bool, true, false, not, Option, none, some, List, [], ◌∷◌, ◌++◌,
  Result, ok, err, text_eq, sort_with, if◌then◌else◌, Bool-cases, inl, inr, All, arith, eq_iff,
}
use mathlib.Core.List.{append_assoc, append-nil}
use jobsys.Base.Unique.{contains-append, contains, Distinct}
use jobsys.Worker.Env.{Fault, fine, refused, unanswered}
use jobsys.Store.Migrate.{
  Files, Postgres, Schema, Trip, is_recorded, commit, applied, apply_migration, migrate_file,
  migrate_files, migrate_named, migrate_opened, migrate, text_leb,
}
use jobsys.Store.Migrate.Names.{missing, missing-snoc, Distinct-sort_with}

module _ {S : Type 0} (pg : Postgres S) (files : Files) where
  -- A file's answer says whether it was missing, and it is recorded in either case.
  record IsDone (b : Bool) (name : String) (s s' : Schema S) : Type 0 where
    was : is_recorded name s.versions ≡ not b
    kept : s'.versions ≡ (if b then s.versions ++ name ∷ [] else s.versions)

  applied-IsDone :
      (fault : Fault) (b : Bool) (name sql : String) (s : Schema S)
      → is_recorded name s.versions ≡ false
      → (applied pg files name (apply_migration pg files fault name sql s)).1 ≡ ok b
      → IsDone b name s (applied pg files name (apply_migration pg files fault name sql s)).0
  unfolding apply_migration commit
  applied-IsDone fine b name sql s new h = ran (pg.run_sql sql s.tables) refl h
    where
      ran :
          (r : Result String S)
          → pg.run_sql sql s.tables ≡ r
          → (applied pg files name (commit pg files name sql s)).1 ≡ ok b
          → IsDone b name s (applied pg files name (commit pg files name sql s)).0
      ran (err e) k h = let h' = rw (commit, k) at h in cc
      ran (ok t) k h =
          let h' = rw (commit, k, new) at h in
          let yes : b ≡ true = ground arith in
          rw (commit, k, new, yes) (record { was = new; kept = refl })
  applied-IsDone (refused e) b name sql s new h = cc
  applied-IsDone (unanswered e) b name sql s new h = cc

  migrate_file-IsDone :
      (trip : Trip) (name : String) (s : Schema S) (b : Bool)
      → (migrate_file pg files trip name s).1 ≡ ok b
      → IsDone b name s (migrate_file pg files trip name s).0
  unfolding migrate_file
  migrate_file-IsDone trip name s b h = checked (trip.checking name) refl h
    where
      read :
          (r : Result String String)
          → files.read_file name ≡ r
          → trip.checking name ≡ none
          → is_recorded name s.versions ≡ false
          → (migrate_file pg files trip name s).1 ≡ ok b
          → IsDone b name s (migrate_file pg files trip name s).0
      read (err e) k free new h = let h' = rw (migrate_file, free, new, k) at h in cc
      read (ok sql) k free new h =
          let h' = rw (migrate_file, free, new, k) at h in
          let done = applied-IsDone (trip.applying name) b name sql s new h' in
          rw (migrate_file, free, new, k) done

      checked :
          (c : Option String)
          → trip.checking name ≡ c
          → (migrate_file pg files trip name s).1 ≡ ok b
          → IsDone b name s (migrate_file pg files trip name s).0
      checked (some e) k h = let h' = rw (migrate_file, k) at h in cc
      checked none k h = elim (Bool-cases (is_recorded name s.versions)) [
        | inl y ↦
            let h' = rw (migrate_file, k, y) at h in
            let no : b ≡ false = ground arith in
            rw (migrate_file, k, y, no) (record { was = y; kept = refl })
        | inr n ↦ read (files.read_file name) refl k n h
      ]

  -- What a pass over the names without an error leaves.
  record IsUpToDate (names : List String) (s s' : Schema S) (done : List String) : Type 0 where
    told : done ≡ missing s.versions names
    grown : s'.versions ≡ s.versions ++ done
    recorded : All (λ n. is_recorded n s'.versions ≡ true) names

  stays :
      (n : String) (xs ys : List String) → is_recorded n xs ≡ true → is_recorded n (xs ++ ys) ≡ true
  stays n xs ys h = contains-append text_eq n xs ys ∙ rw h refl

  file-IsUpToDate :
      (b : Bool) (name : String) (names done : List String) (s s' s'' : Schema S)
      → contains text_eq name names ≡ false
      → IsDone b name s s'
      → IsUpToDate names s' s'' done
      → IsUpToDate (name ∷ names) s s'' (if b then name ∷ done else done)
  file-IsUpToDate true name names done s s' s'' new d u =
      let first : is_recorded name (s.versions ++ name ∷ []) ≡ true =
        contains-append text_eq name s.versions (name ∷ [])
        ∙ rw (d.was, (eq_iff name name).1 refl) refl in
      record {
        told =
            rw d.was (ap (◌∷◌ name) (u.told ∙ rw d.kept (missing-snoc name s.versions names new)));
        grown = u.grown ∙ rw d.kept (append_assoc s.versions (name ∷ []) done);
        recorded = (rw u.grown (stays name s'.versions done (rw d.kept first)), u.recorded);
      }
  file-IsUpToDate false name names done s s' s'' new d u = record {
    told = rw d.was (u.told ∙ rw d.kept refl);
    grown = u.grown ∙ rw d.kept refl;
    recorded = (rw u.grown (stays name s'.versions done (rw d.kept d.was)), u.recorded);
  }

  migrate_files-IsUpToDate :
      (trip : Trip) (names : List String) (s : Schema S)
      → Distinct text_eq names
      → let m = migrate_files pg files trip names s in m.1.1 ≡ none → IsUpToDate names s m.0 m.1.0
  unfolding migrate_files
  migrate_files-IsUpToDate trip [] s d h = record {
    told = refl;
    grown = sym (append-nil s.versions);
    recorded = tt;
  }
  migrate_files-IsUpToDate trip (name ∷ names) s d h =
      let s' = (migrate_file pg files trip name s).0 in
      answered (migrate_file pg files trip name s).1 refl h
        (migrate_files-IsUpToDate trip names s' d.1)
    where
      answered :
          (a : Result String Bool)
          → (migrate_file pg files trip name s).1 ≡ a
          → (migrate_files pg files trip (name ∷ names) s).1.1 ≡ none
          → (let m = migrate_files pg files trip names (migrate_file pg files trip name s).0 in
              m.1.1 ≡ none → IsUpToDate names (migrate_file pg files trip name s).0 m.0 m.1.0)
          → let m = migrate_files pg files trip (name ∷ names) s in
            IsUpToDate (name ∷ names) s m.0 m.1.0
      answered (err e) k h rest = let h' = rw (migrate_files, k) at h in cc
      answered (ok true) k h rest =
          let done = migrate_file-IsDone trip name s true k in
          rw (migrate_files, k)
            (file-IsUpToDate true name names _ s _ _ d.0 done (rest (rw (migrate_files, k) at h)))
      answered (ok false) k h rest =
          let done = migrate_file-IsDone trip name s false k in
          rw (migrate_files, k)
            (file-IsUpToDate false name names _ s _ _ d.0 done (rest (rw (migrate_files, k) at h)))

  skipped :
      (trip : Trip) (name : String) (s : Schema S)
      → trip.checking name ≡ none
      → is_recorded name s.versions ≡ true
      → migrate_file pg files trip name s ≡ (s, ok false)
  unfolding migrate_file
  skipped trip name s free there = rw (migrate_file, free, there) refl

  refused_check :
      (trip : Trip) (name e : String) (s : Schema S)
      → trip.checking name ≡ some e
      → migrate_file pg files trip name s ≡ (s, err e)
  unfolding migrate_file
  refused_check trip name e s k = rw (migrate_file, k) refl

  -- Files that are recorded are left alone.
  migrate_files-recorded :
      (trip : Trip) (names : List String) (s : Schema S)
      → All (λ n. is_recorded n s.versions ≡ true) names
      → ((migrate_files pg files trip names s).0 ≡ s)
        × ((migrate_files pg files trip names s).1.0 ≡ [])
  unfolding migrate_files
  migrate_files-recorded trip [] s h = (refl, refl)
  migrate_files-recorded trip (name ∷ names) s h =
      checked (trip.checking name) refl (migrate_files-recorded trip names s h.1)
    where
      checked :
          (c : Option String)
          → trip.checking name ≡ c
          → ((migrate_files pg files trip names s).0 ≡ s)
            × ((migrate_files pg files trip names s).1.0 ≡ [])
          → ((migrate_files pg files trip (name ∷ names) s).0 ≡ s)
            × ((migrate_files pg files trip (name ∷ names) s).1.0 ≡ [])
      checked (some e) k rest =
          let m = refused_check trip name e s k in
          rw (migrate_files, ap (λ x. x.1) m, ap (λ x. x.0) m) (refl, refl)
      checked none k rest =
          let m = skipped trip name s k h.0 in
          rw (migrate_files, ap (λ x. x.1) m, ap (λ x. x.0) m) rest

  -- If Migrate reports no error, it has applied exactly the files that were not recorded, in the order
  -- of their names, and has recorded them behind those that were. Another Migrate on the same files,
  -- however its connection fares, changes nothing then and applies nothing. The files have different
  -- names.
  pub migrate-migrate :
      (trip again : Trip) (names : List String) (s : Schema S)
      → files.glob ≡ ok names
      → Distinct text_eq names
      → let m = migrate pg files trip s in
        m.1.1 ≡ none
        → (m.1.0 ≡ missing s.versions (sort_with text_leb names))
          × ((m.0.versions ≡ s.versions ++ m.1.0)
              × (((migrate pg files again m.0).0 ≡ m.0) × ((migrate pg files again m.0).1.0 ≡ [])))
  unfolding migrate
  migrate-migrate trip again names s listed d h =
      let up = opened trip.opening h in
      (up.told, (up.grown, reopened (migrate pg files trip s).0 up.recorded again again.opening))
    where
      sorted : List String
      sorted = sort_with text_leb names

      named :
          (g : Result String (List String))
          → g ≡ ok names
          → (migrate_named pg files trip s g).1.1 ≡ none
          → IsUpToDate sorted s
              (migrate_named pg files trip s g).0
              (migrate_named pg files trip s g).1.0
      named (err e) k h = cc
      named (ok ns) k h =
          let same : names ≡ ns = cc in
          let up =
            migrate_files-IsUpToDate trip (sort_with text_leb ns) s
              (Distinct-sort_with ns (rw (← same) d)) h in
          rw same up

      opened :
          (o : Option String)
          → (migrate_opened pg files trip s o).1.1 ≡ none
          → IsUpToDate sorted s
              (migrate_opened pg files trip s o).0
              (migrate_opened pg files trip s o).1.0
      opened (some e) h = cc
      opened none h = named files.glob listed h

      renamed :
          (s' : Schema S) (again : Trip) (g : Result String (List String))
          → g ≡ ok names
          → All (λ n. is_recorded n s'.versions ≡ true) sorted
          → ((migrate_named pg files again s' g).0 ≡ s')
            × ((migrate_named pg files again s' g).1.0 ≡ [])
      renamed s' again (err e) k all = (refl, refl)
      renamed s' again (ok ns) k all =
          let same : names ≡ ns = cc in
          migrate_files-recorded again (sort_with text_leb ns) s' (rw same at all)

      reopened :
          (s' : Schema S)
          → All (λ n. is_recorded n s'.versions ≡ true) sorted
          → (again : Trip) (o : Option String)
          → ((migrate_opened pg files again s' o).0 ≡ s')
            × ((migrate_opened pg files again s' o).1.0 ≡ [])
      reopened s' all again (some e) = (refl, refl)
      reopened s' all again none = renamed s' again files.glob listed all
