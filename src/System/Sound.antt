-- ===== src/System/Sound.antt =====
-- A world whose notices name runs of its tables, and the calls that keep it so.
use mathlib.Core.List.{Memᴰ}
use mathlib.Core.List.Memᴰ
use mathlib.Core.List.Memᴰ.{head, tail}
use jobsys.Base.{ℕ, ◌≤◌, ◌≡◌, refl, sym, ap, ◌∙◌, inl, inr, some, List, [], ◌∷◌, ◌++◌, arith}
use jobsys.Base.Columns.{find-present}
use jobsys.Store.Models.{Run, Db, Redispatch}
use jobsys.Store.Table.{find_run}
use jobsys.Store.Follows.{Follows}
use jobsys.Store.Histories.{IsValid, exec_all-IsValid, exec_all-keeps}
use jobsys.Worker.Env.{World, Notice, Fault, fine, refused, unanswered, call, dispatch}
use jobsys.Worker.Maintain.{redispatch_all, redispatch_run, notice_of, rows_or_none}
use jobsys.Worker.Pool.Worlds.{call-Follows, dispatch-db}

-- The run is in the table, at this attempt or a later one.
abbrev pub IsKnown : Notice → Db → Type 0
IsKnown n db = (r : Run) × (find_run n.run_id db ≡ some r) × (n.attempt ≤ r.attempt)

pub record IsSound (w : World) : Type 0 where
  pub valid : IsValid w.db
  pub known : (n : Notice) → Memᴰ n w.topic → IsKnown n w.db

IsValid-Follows : (db db' : Db) → Follows db db' → IsValid db → IsValid db'
IsValid-Follows db db' (cs, e) v = rw e (exec_all-IsValid cs db v)

IsKnown-Follows :
    (n : Notice) (db db' : Db) → IsValid db → Follows db db' → IsKnown n db → IsKnown n db'
unfolding find_run
IsKnown-Follows n db db' v (cs, e) (r, found, low) =
    let same : r.id ≡ n.run_id = (find-present (λ x. x.id) n.run_id db.runs r found).0 in
    let there : find_run r.id db ≡ some r = ap (λ i. find_run i db) same ∙ found in
    let (s, found', _, _, more) = exec_all-keeps cs db v r there in
    (
      s,
      ap (λ i. find_run i db') (sym same) ∙ ap (find_run r.id) e ∙ found',
      omega (arith, low, more),
    )

-- A change of the tables by the store's calls, with the topic as it was.
pub IsSound-Follows :
    (w w' : World) → IsSound w → Follows w.db w'.db → w'.topic ≡ w.topic → IsSound w'
IsSound-Follows w w' h later same = record {
  valid = IsValid-Follows w.db w'.db later h.valid;
  known = λ n m. IsKnown-Follows n w.db w'.db h.valid later (h.known n (rw same at m));
}

pub dispatch-IsSound :
    (x : Fault) (n : Notice) (w : World) → IsSound w → IsKnown n w.db → IsSound (dispatch x n w).0
unfolding dispatch
dispatch-IsSound x n w h k = sent x
  where
    more : IsSound (record w { topic = w.topic ++ n ∷ [] })
    more = record { valid = h.valid; known = known }
      where
        known : (m : Notice) → Memᴰ m (w.topic ++ n ∷ []) → IsKnown m w.db
        known m there = elim (Memᴰ.append_cases w.topic there) [
          | inl old ↦ h.known m old
          | inr new ↦ rw (Memᴰ.eq_of_singleton new) k
        ]

    sent : (x : Fault) → IsSound (dispatch x n w).0
    sent fine = more
    sent (refused e) = h
    sent (unanswered e) = more

module _ {ℓ} {A : Type ℓ} (x : Fault) (f : Db → Db × A) (w : World) where
  pub call-topic : (call x f w).0.topic ≡ w.topic
  unfolding call
  call-topic = ground arith

  pub call-IsSound : IsSound w → Follows w.db (f w.db).0 → IsSound (call x f w).0
  call-IsSound h later = IsSound-Follows w (call x f w).0 h (call-Follows f w x later) call-topic

-- The rows that a statement returned are known, if it went through.
pub rows-IsKnown :
    (x : Fault) (f : Db → Db × List Redispatch) (w : World)
    → ((r : Redispatch) → Memᴰ r (f w.db).1 → IsKnown (notice_of r) (f w.db).0)
    → let a = rows_or_none (call x f w) in
      (r : Redispatch) → Memᴰ r a.1 → IsKnown (notice_of r) a.0.db
unfolding call
rows-IsKnown fine f w h r m = h r m
rows-IsKnown (refused e) f w h r m = absurd (Memᴰ.not-nil m)
rows-IsKnown (unanswered e) f w h r m = absurd (Memᴰ.not-nil m)

pub redispatch_all-IsSound :
    (faults : ℕ → Fault) (rs : List Redispatch) (w : World)
    → IsSound w
    → ((r : Redispatch) → Memᴰ r rs → IsKnown (notice_of r) w.db)
    → IsSound (redispatch_all faults rs w)
unfolding redispatch_all redispatch_run
redispatch_all-IsSound faults [] w h k = h
redispatch_all-IsSound faults (r ∷ rs) w h k =
    let next = dispatch-IsSound (faults r.run_id) (notice_of r) w h (k r (head refl)) in
    let same = dispatch-db (faults r.run_id) (notice_of r) w in
    redispatch_all-IsSound faults rs (redispatch_run faults r w) next
      (λ s m. rw same (k s (tail m)))
