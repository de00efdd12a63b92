-- ===== src/Store/Migrate/Replays.antt =====
-- What the recorded files have done to the schema.
use jobsys.Base.{
  ◌≡◌, refl, String, Bool, true, false, Option, none, some, List, [], ◌∷◌, ◌++◌, Result, ok, err,
  ◌>>=◌, text_eq, sort_with, Bool-cases, inl, inr,
}
use jobsys.Base.Unique.{Distinct-snoc, Distinct}
use jobsys.Worker.Env.{Fault, fine, refused, unanswered}
use jobsys.Store.Migrate.Names.{flip-text_eq}
use jobsys.Store.Migrate.{
  Files, Postgres, Schema, Trip, is_recorded, commit, applied, apply_migration, migrate_file,
  migrate_files, migrate_named, migrate_opened, migrate, migrate_all, text_leb,
}

-- What follows from each result of the second step follows from that of the whole.
bind-ok :
    {A B : Type 0} (r : Result String A) (f g : A → Result String B) (b c : B)
    → ((a : A) → f a ≡ ok b → g a ≡ ok c)
    → (r >>= f) ≡ ok b
    → (r >>= g) ≡ ok c
bind-ok (ok a) f g b c h e = h a e
bind-ok (err x) f g b c h e = cc

module _ {S : Type 0} (pg : Postgres S) (files : Files) where
  -- The files one after another, each run once.
  unfoldable pub replay : List String → S → Result String S
  replay [] t = ok t
  replay (v ∷ vs) t = do sql ← files.read_file v; t' ← pg.run_sql sql t; replay vs t'

  replay-snoc :
      (v sql : String) (vs : List String) (t t' t'' : S)
      → replay vs t ≡ ok t'
      → files.read_file v ≡ ok sql
      → pg.run_sql sql t' ≡ ok t''
      → replay (vs ++ v ∷ []) t ≡ ok t''
  unfolding replay
  replay-snoc v sql [] t t' t'' e read run = let same : t ≡ t' = cc in rw (read, same, run) refl
  replay-snoc v sql (x ∷ vs) t t' t'' e read run =
      bind-ok (files.read_file x) _ _ t' t''
        (λ sql'.
          bind-ok (pg.run_sql sql' t) _ _ t' t'' (λ u h. replay-snoc v sql vs u t' t'' h read run))
        e

  pub record IsReplayed (blank : S) (s : Schema S) : Type 0 where
    pub once : Distinct text_eq s.versions
    pub replayed : replay s.versions blank ≡ ok s.tables

  commit-IsReplayed :
      (blank : S) (name sql : String) (s : Schema S)
      → files.read_file name ≡ ok sql
      → IsReplayed blank s
      → IsReplayed blank (commit pg files name sql s).0
  unfolding commit
  commit-IsReplayed blank name sql s read h = ran (pg.run_sql sql s.tables) refl
    where
      ran :
          (r : Result String S)
          → pg.run_sql sql s.tables ≡ r
          → IsReplayed blank (commit pg files name sql s).0
      ran (err e) k = rw (commit, k) h
      ran (ok t) k = elim (Bool-cases (is_recorded name s.versions)) [
        | inl y ↦ rw (commit, k, y) h
        | inr n ↦
            rw (commit, k, n)
              (record {
                once = Distinct-snoc text_eq flip-text_eq name s.versions n h.once;
                replayed = replay-snoc name sql s.versions blank s.tables t h.replayed read k;
              })
      ]

  apply_migration-IsReplayed :
      (blank : S) (fault : Fault) (name sql : String) (s : Schema S)
      → files.read_file name ≡ ok sql
      → IsReplayed blank s
      → IsReplayed blank (apply_migration pg files fault name sql s).0
  unfolding apply_migration
  apply_migration-IsReplayed blank fine name sql s read h =
      commit-IsReplayed blank name sql s read h
  apply_migration-IsReplayed blank (refused e) name sql s read h = h
  apply_migration-IsReplayed blank (unanswered e) name sql s read h =
      commit-IsReplayed blank name sql s read h

  applied-same : (name : String) (a : Schema S × Option String) → (applied pg files name a).0 ≡ a.0
  applied-same name (s, none) = refl
  applied-same name (s, some e) = refl

  migrate_file-IsReplayed :
      (blank : S) (trip : Trip) (name : String) (s : Schema S)
      → IsReplayed blank s
      → IsReplayed blank (migrate_file pg files trip name s).0
  unfolding migrate_file
  migrate_file-IsReplayed blank trip name s h = checked (trip.checking name) refl
    where
      read :
          (r : Result String String)
          → files.read_file name ≡ r
          → trip.checking name ≡ none
          → is_recorded name s.versions ≡ false
          → IsReplayed blank (migrate_file pg files trip name s).0
      read (err e) k free new = rw (migrate_file, free, new, k) h
      read (ok sql) k free new =
          let a = apply_migration pg files (trip.applying name) name sql s in
          let done = apply_migration-IsReplayed blank (trip.applying name) name sql s k h in
          rw (migrate_file, free, new, k, applied-same name a) done

      checked :
          (c : Option String)
          → trip.checking name ≡ c
          → IsReplayed blank (migrate_file pg files trip name s).0
      checked (some e) k = rw (migrate_file, k) h
      checked none k = elim (Bool-cases (is_recorded name s.versions)) [
        | inl y ↦ rw (migrate_file, k, y) h
        | inr n ↦ read (files.read_file name) refl k n
      ]

  migrate_files-IsReplayed :
      (blank : S) (trip : Trip) (names : List String) (s : Schema S)
      → IsReplayed blank s
      → IsReplayed blank (migrate_files pg files trip names s).0
  unfolding migrate_files
  migrate_files-IsReplayed blank trip [] s h = h
  migrate_files-IsReplayed blank trip (name ∷ names) s h =
      let here = migrate_file-IsReplayed blank trip name s h in
      answered (migrate_file pg files trip name s).1 refl here
        (migrate_files-IsReplayed blank trip names (migrate_file pg files trip name s).0 here)
    where
      answered :
          (a : Result String Bool)
          → (migrate_file pg files trip name s).1 ≡ a
          → IsReplayed blank (migrate_file pg files trip name s).0
          → IsReplayed blank
              (migrate_files pg files trip names (migrate_file pg files trip name s).0).0
          → IsReplayed blank (migrate_files pg files trip (name ∷ names) s).0
      answered (err e) k now rest = rw (migrate_files, k) now
      answered (ok true) k now rest = rw (migrate_files, k) rest
      answered (ok false) k now rest = rw (migrate_files, k) rest

  migrate_opened-IsReplayed :
      (blank : S) (trip : Trip) (s : Schema S) (o : Option String)
      → IsReplayed blank s
      → IsReplayed blank (migrate_opened pg files trip s o).0
  migrate_opened-IsReplayed blank trip s (some e) h = h
  migrate_opened-IsReplayed blank trip s none h = named files.glob
    where
      named :
          (g : Result String (List String)) → IsReplayed blank (migrate_named pg files trip s g).0
      named (err e) = h
      named (ok names) = migrate_files-IsReplayed blank trip (sort_with text_leb names) s h

  migrate_all-from :
      (blank : S) (trips : List Trip) (s : Schema S)
      → IsReplayed blank s
      → IsReplayed blank (migrate_all pg files trips s)
  unfolding migrate_all migrate
  migrate_all-from blank [] s h = h
  migrate_all-from blank (t ∷ ts) s h =
      migrate_all-from blank ts (migrate pg files t s).0
        (migrate_opened-IsReplayed blank t s t.opening h)

  -- Whatever calls of Migrate have been made on an empty database, however their connections failed:
  -- no file is recorded twice, and the schema is what the recorded files make of the empty one, each
  -- run exactly once, in the order in which they were recorded.
  pub migrate_all-IsReplayed :
      (trips : List Trip) (blank : S)
      → let s = migrate_all pg files trips (record { tables = blank; versions = [] }) in
        Distinct text_eq s.versions × (replay s.versions blank ≡ ok s.tables)
  unfolding replay
  migrate_all-IsReplayed trips blank =
      let r =
        migrate_all-from blank trips (record { tables = blank; versions = [] })
          (record { once = tt; replayed = refl }) in
      (r.once, r.replayed)
