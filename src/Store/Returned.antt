-- ===== src/Store/Returned.antt =====
-- The rows that an UPDATE on a batch returns are those it leaves in the table.
use mathlib.Core.List.{Memᴰ}
use mathlib.Core.List.Memᴰ
use jobsys.Base.{
  ◌≡◌, refl, sym, ap, ◌∙◌, Bool, true, some, List, [], ◌∷◌, map, arith, ◌==◌, All, inl, inr,
  Bool-cases, Option-cases,
}
use jobsys.Base.Columns.{All-find?, find?-satisfies}
use jobsys.Base.Members.{Memᴰ-All, Memᴰ-unmap}
use jobsys.Store.Models.{Job, Run, Db, Redispatch}
use jobsys.Store.Table.{find_run, update_batch, returning, redispatch, in_batch, apply_entry}
use jobsys.Store.Batches.{IsEntry}
use jobsys.Store.Evolve.{find_id}
use jobsys.Store.Keyed.{find-map}

member-named :
    (e : Run × Job) (batch : List (Run × Job))
    → Memᴰ e batch
    → (x : Run × Job) × (in_batch batch e.0.id ≡ some x)
unfolding in_batch
member-named e [] m = absurd (Memᴰ.not-nil m)
member-named e (b ∷ batch) m = elim (Bool-cases (b.0.id == e.0.id)) [
  | inl t ↦ (b, rw t refl)
  | inr f ↦ elim (Memᴰ.cases_cons m) [
    | inl same ↦ absurd (let h = rw same at f in ground arith)
    | inr later ↦ let (x, found) = member-named e batch later in (x, rw f found)
  ]
]

module _ (db : Db) (p : Run → Bool) (f : Job → Run → Run)
    (same_id : (j : Job) (r : Run) → (f j r).id ≡ r.id) (batch : List (Run × Job))
    (entries : All (IsEntry db p) batch) where
  entry_unique : (e : Run × Job) → Memᴰ e batch → in_batch batch e.0.id ≡ some e
  unfolding in_batch
  entry_unique e m =
      let (x, named) = member-named e batch m in
      let at_e = Memᴰ-All (IsEntry db p) batch entries m in
      let at_x = All-find? (IsEntry db p) _ batch x named entries in
      let key : (x.0.id == e.0.id) ≡ true = find?-satisfies _ batch x named in
      let id : x.0.id ≡ e.0.id = ground arith in
      let k : x.0 ≡ e.0 = cc in let l : x.1 ≡ e.1 = cc in named ∙ ap some (cc)

  pub returning-found :
      (x : Redispatch)
      → Memᴰ x (returning batch f)
      → (s : Run) × (find_run x.run_id (update_batch batch f db) ≡ some s) × (s.attempt ≡ x.attempt)
  unfolding returning find_run update_batch
  returning-found x m =
      let (e, there, same) = Memᴰ-unmap (λ e. redispatch e.1 (f e.1 e.0)) batch m in
      let entry = Memᴰ-All (IsEntry db p) batch entries there in
      let found : find_id e.0.id (map table db.runs) ≡ some (table e.0) =
        find-map e.0.id table db.runs e.0 keeps entry.0 in
      let row : table e.0 ≡ f e.1 e.0 = ap (apply_entry f e.0) (entry_unique e there) in
      let id : x.run_id ≡ e.0.id = ap (λ r. r.run_id) same ∙ same_id e.1 e.0 in
      (
        f e.1 e.0,
        ap (λ i. find_id i (map table db.runs)) id ∙ found ∙ ap some row,
        ap (λ r. r.attempt) (sym same),
      )
    where
      table : Run → Run
      table r = apply_entry f r (in_batch batch r.id)

      keeps : (r : Run) → (table r).id ≡ r.id
      keeps r = elim (Option-cases (in_batch batch r.id)) [
        | inl e ↦ rw e refl
        | inr (y, e) ↦ rw e (same_id y.1 r)
      ]
