-- ===== src/Store/Follows.antt =====
-- One state of the tables after another, by a history of the store's calls.
use jobsys.Base.{◌≡◌, refl, sym, ap, ◌∙◌, List, [], ◌∷◌, ◌++◌}
use jobsys.Store.Models.{Db}
use jobsys.Store.History.{Call, exec, exec_all}

abbrev pub Follows : Db → Db → Type 0
Follows db db' = (cs : List Call) × (db' ≡ exec_all cs db)

pub exec_all-append :
    (cs ds : List Call) (db : Db) → exec_all (cs ++ ds) db ≡ exec_all ds (exec_all cs db)
unfolding exec_all
exec_all-append [] ds db = refl
exec_all-append (c ∷ cs) ds db = exec_all-append cs ds (exec c db)

pub Follows-refl : (db : Db) → Follows db db
unfolding exec_all
Follows-refl db = ([], refl)

pub Follows-exec : (c : Call) (db : Db) → Follows db (exec c db)
unfolding exec_all
Follows-exec c db = (c ∷ [], refl)

pub Follows-trans : (a b c : Db) → Follows a b → Follows b c → Follows a c
Follows-trans a b c (cs, e) (ds, f) =
    (cs ++ ds, f ∙ ap (exec_all ds) e ∙ sym (exec_all-append cs ds a))

pub Follows-same : (a b : Db) → b ≡ a → Follows a b
Follows-same a b e = rw e (Follows-refl a)
