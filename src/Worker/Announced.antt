-- ===== src/Worker/Announced.antt =====
-- What redispatch of internal/worker/worker.go puts on the topic.
use mathlib.Core.List.{Memᴰ}
use mathlib.Core.List.Memᴰ
use mathlib.Core.List.Memᴰ.{head, tail}
use jobsys.Base.{ℕ, ◌≡◌, refl, false, List, [], ◌∷◌, Bool-cases, inl, inr}
use jobsys.Store.Models.{Redispatch}
use jobsys.Worker.Env.{World, Notice, Fault, fine, refused, unanswered, dispatch}
use jobsys.Worker.Maintain.{redispatch_all, redispatch_run, requeued, notice_of, is_failed}

module _ (n : Notice) where
  dispatch-kept :
      (x : Fault) (m : Notice) (w : World) → Memᴰ n w.topic → Memᴰ n (dispatch x m w).0.topic
  unfolding dispatch
  dispatch-kept fine m w h = Memᴰ.append_left (m ∷ []) h
  dispatch-kept (refused e) m w h = h
  dispatch-kept (unanswered e) m w h = Memᴰ.append_left (m ∷ []) h

  pub redispatch_all-kept :
      (faults : ℕ → Fault) (rs : List Redispatch) (w : World)
      → Memᴰ n w.topic
      → Memᴰ n (redispatch_all faults rs w).topic
  unfolding redispatch_all redispatch_run
  redispatch_all-kept faults [] w h = h
  redispatch_all-kept faults (r ∷ rs) w h =
      redispatch_all-kept faults rs (redispatch_run faults r w)
        (dispatch-kept (faults r.run_id) (notice_of r) w h)

dispatch-told : (x : Fault) (n : Notice) (w : World) → x ≡ fine → Memᴰ n (dispatch x n w).0.topic
unfolding dispatch
dispatch-told x n w e = rw e (Memᴰ.append_right w.topic (head refl))

-- A run whose own dispatch goes through is announced, whatever becomes of the others.
pub redispatch_all-told :
    (faults : ℕ → Fault) (x : Redispatch) (rs : List Redispatch) (w : World)
    → faults x.run_id ≡ fine
    → Memᴰ x rs
    → Memᴰ (notice_of x) (redispatch_all faults rs w).topic
unfolding redispatch_all redispatch_run
redispatch_all-told faults x [] w working m = absurd (Memᴰ.not-nil m)
redispatch_all-told faults x (r ∷ rs) w working (head e) =
    redispatch_all-kept (notice_of x) faults rs (redispatch_run faults r w)
      (rw (← e) (dispatch-told (faults x.run_id) (notice_of x) w working))
redispatch_all-told faults x (r ∷ rs) w working (tail m) =
    redispatch_all-told faults x rs (redispatch_run faults r w) working m

pub requeued-Memᴰ :
    (x : Redispatch) (rs : List Redispatch)
    → is_failed x.status ≡ false
    → Memᴰ x rs
    → Memᴰ x (requeued rs)
unfolding requeued
requeued-Memᴰ x [] f m = absurd (Memᴰ.not-nil m)
requeued-Memᴰ x (r ∷ rs) f (head e) = let k = rw e at f in rw k (head e)
requeued-Memᴰ x (r ∷ rs) f (tail m) = elim (Bool-cases (is_failed r.status)) [
  | inl t ↦ rw t (requeued-Memᴰ x rs f m)
  | inr k ↦ rw k (tail (requeued-Memᴰ x rs f m))
]
