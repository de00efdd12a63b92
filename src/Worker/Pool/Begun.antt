-- ===== src/Worker/Pool/Begun.antt =====
-- An attempt that this worker has claimed: it executes it still, or the attempt is over for good.
use jobsys.Base.{
  ℕ, ◌≡◌, refl, ◌⊎◌, inl, inr, String, Bool, true, false, Option, none, some, List, [], ◌∷◌, Result,
  ok, err, ◌==◌, ◌&&◌, Bool-cases, All, arith,
}
use jobsys.Base.Columns.{find?-satisfies}
use jobsys.Queue.{Dispatch, decode_dispatch}
use jobsys.Store.Models.{Run, Db}
use jobsys.Store.Table.{find_run, updated}
use jobsys.Store.Phase.{phase, waiting, executing, IsOver, Moves-executing, Moves-IsOver}
use jobsys.Store.Evolve.{find_id, Evolves-find}
use jobsys.Store.Lifecycle.{exec_all-Evolves}
use jobsys.Store.Histories.{IsValid}
use jobsys.Store.Worker.{claim_run, claimed}
use jobsys.Store.Claims.{claim_run_lem, is_ready}
use jobsys.Worker.Env.{Config, World, Fault, fine, refused, unanswered, call}
use jobsys.Worker.Execute.{claim, claim_named}
use jobsys.Store.Follows.{Follows}

module _ (cfg : Config) where
  abbrev pub HasBegun : Db → Run → Type 0
  HasBegun db r =
      (s : Run) × (find_run r.id db ≡ some s)
      × ((phase s ≡ executing r.attempt (some cfg.id)) ⊎ IsOver r.attempt (phase s))

  HasBegun-later :
      (db db' : Db) (r : Run) → IsValid db → Follows db db' → HasBegun db r → HasBegun db' r
  unfolding find_run
  HasBegun-later db db' r v (cs, e) (s, found, state) =
      let (t, found', b) = Evolves-find r.id s (exec_all-Evolves cs db v.keyed) found in
      let now : (phase t ≡ executing r.attempt (some cfg.id)) ⊎ IsOver r.attempt (phase t) =
        elim state [
          | inl x ↦ Moves-executing r.attempt (some cfg.id) _ _ b.moves x
          | inr o ↦ inr (Moves-IsOver r.attempt _ _ b.moves o)
        ] in
      (t, rw e found', now)

  pub All-HasBegun-later :
      (db db' : Db) (rs : List Run)
      → IsValid db
      → Follows db db'
      → All (HasBegun db) rs
      → All (HasBegun db') rs
  All-HasBegun-later db db' [] v f h = tt
  All-HasBegun-later db db' (r ∷ rs) v f h =
      (HasBegun-later db db' r v f h.0, All-HasBegun-later db db' rs v f h.1)

  -- What a claim answers waited before it.
  abbrev pub Claims : Db → Db → Run → Type 0
  Claims db db' r =
      HasBegun db' r × ((s : Run) × (find_run r.id db ≡ some s) × (phase s ≡ waiting r.attempt))

abbrev pub same_attempt : Run → Run → Bool
same_attempt r s = r.id == s.id && r.attempt == s.attempt

ready-waiting : (now : ℕ) (s : Run) → is_ready now s ≡ true → phase s ≡ waiting s.attempt
ready-waiting now s h = unfold phase in ground arith

claimed-Claims :
    (cfg : Config) (db db' : Db) (now id : ℕ) (s : Run)
    → is_ready now s ≡ true
    → find_run id db ≡ some s
    → find_run id db' ≡ some (claimed now cfg.id s)
    → Claims cfg db db' (claimed now cfg.id s)
unfolding find_run phase
claimed-Claims cfg db db' now id s ready e row =
    let t : (s.id == id) ≡ true = find?-satisfies (λ x. x.id == id) db.runs s e in
    let same : id ≡ s.id = ground arith in
    ((claimed now cfg.id s, rw same at row, inl refl), (s, rw same at e, ready-waiting now s ready))

pub updated-absent :
    (id : ℕ) (q : Run → Bool) (f : Run → Run) (rs : List Run) (js ls : _)
    → find_id id rs ≡ none
    → updated (λ x. x.id == id && q x) f (record { jobs = js; runs = rs; logs = ls }) ≡ []
unfolding updated
updated-absent id q f [] js ls h = refl
updated-absent id q f (x ∷ rs) js ls h =
    let other : (x.id == id) ≡ false = ground arith in
    let rest : find_id id rs ≡ none = ground arith in rw other (updated-absent id q f rs js ls rest)

module _ (cfg : Config) (unmarshal : String → Result String Dispatch)
    (parse_uuid : String → Option ℕ) where
  claim_run-Claims :
      (now id : ℕ) (db : Db) (r : Run)
      → IsValid db
      → (claim_run now id cfg.id db).1 ≡ some r
      → Claims cfg db (claim_run now id cfg.id db).0 r
  unfolding find_run claim_run
  claim_run-Claims now id db r v answer = looked (find_run id db) refl
    where
      looked :
          (found : Option Run)
          → find_run id db ≡ found
          → Claims cfg db (claim_run now id cfg.id db).0 r
      looked none e =
          let absent =
            updated-absent id (is_ready now) (claimed now cfg.id) db.runs db.jobs db.logs e in
          let nothing = rw absent at answer in cc
      looked (some s) e =
          let (answered, left) = claim_run_lem id db s v.keyed e now cfg.id in
          elim (Bool-cases (is_ready now s)) [
            | inl t ↦
                let same : claimed now cfg.id s ≡ r = let a = rw t at answered in ground arith in
                let row : find_run id (claim_run now id cfg.id db).0 ≡ some (claimed now cfg.id s) =
                  rw t at left in
                rw⁻¹ same (claimed-Claims cfg db (claim_run now id cfg.id db).0 now id s t e row)
            | inr f ↦ let a = rw f at answered in cc
          ]

  pub claim-Claims :
      (fault : Fault) (now : ℕ) (value : String) (w : World) (r : Run)
      → IsValid w.db
      → (claim cfg unmarshal parse_uuid fault now value w).1 ≡ some r
      → Claims cfg w.db (claim cfg unmarshal parse_uuid fault now value w).0.db r
  unfolding claim call
  claim-Claims fault now value w r v answer = decoded (decode_dispatch unmarshal value) refl answer
    where
      answered :
          (x : Fault) (id : ℕ)
          → (claim_named cfg unmarshal parse_uuid x now (some id) w).1 ≡ some r
          → Claims cfg w.db (claim_named cfg unmarshal parse_uuid x now (some id) w).0.db r
      answered fine id h = claim_run-Claims now id w.db r v h
      answered (refused e) id h = cc
      answered (unanswered e) id h = cc

      named :
          (id : Option ℕ)
          → (claim_named cfg unmarshal parse_uuid fault now id w).1 ≡ some r
          → Claims cfg w.db (claim_named cfg unmarshal parse_uuid fault now id w).0.db r
      named none h = cc
      named (some id) h = answered fault id h

      decoded :
          (d : Result String Dispatch)
          → decode_dispatch unmarshal value ≡ d
          → (claim cfg unmarshal parse_uuid fault now value w).1 ≡ some r
          → Claims cfg w.db (claim cfg unmarshal parse_uuid fault now value w).0.db r
      decoded (err e) k h = let h' = rw (claim, k) at h in cc
      decoded (ok d) k h = rw (claim, k) (named (parse_uuid d.run_id) (rw (claim, k) at h))
