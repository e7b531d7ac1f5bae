-- ===== src/Database/Sweeps/Drained.antt =====
-- Where every statement is served, a sweep that has something to delete deletes something: sweeping
-- again and again leaves nothing to delete.
use git_lfs_server.Base.{
  ℕ, zero, suc, ◌≤◌, ◌≡◌, refl, sym, ap, subst, ◌∙◌, Bool, false, List, [], ◌∷◌, filter, count,
  arith,
}
use git_lfs_server.Error.{ok}
use git_lfs_server.Database.Schema.{Object, Db}
use git_lfs_server.Database.Exec.{Exec, query, sent, later_faults, transaction, ◌>>=◌}
use git_lfs_server.Database.Exec.Laws.{>>=-eq, query-eq, transaction-eq}
use git_lfs_server.Database.Statements.{is_orphan, is_unreferenced}
use git_lfs_server.Database.Objects.{delete_rows, sweep_orphan_objects, sweep_unreferenced_objects}
use git_lfs_server.Database.Invariant.{IsSound}
use git_lfs_server.Database.Sweeps.Chosen.{chosen}
use git_lfs_server.Database.Sweeps.Body.{body-ok}
use git_lfs_server.Database.Sweeps.Orphans
use git_lfs_server.Database.Sweeps.Orphans.{sweep_orphan_objects-IsSound}
use git_lfs_server.Database.Sweeps.Unreferenced
use git_lfs_server.Database.Sweeps.Unreferenced.{sweep_unreferenced_objects-IsSound}
use git_lfs_server.Database.Sweeps.Fewer.{delete_rows-total, fewer, with_faults, without, spared}

module _ (key : Object → ℕ) (test : ℕ → Object → Bool) (limit : ℕ) (sel : Db → List Object)
    (selects : (db : Db) → sel db ≡ chosen key (test db.now) (suc limit) db.objects) where
  abbrev sweep_body : Exec (List Object)
  sweep_body = do rows ← query sel; delete_rows rows

  -- What a sweep does where every statement is served.
  sweep-eq :
      (db : Db)
      → db.faults ≡ []
      → IsSound db
      → (db' : Db) × (transaction sweep_body db
          ≡ (ok (chosen key (test db.now) (suc limit) db.objects), db'))
        × (db' ≡ without (chosen key (test db.now) (suc limit) db.objects) db)
  sweep-eq db up s =
      let start = sent db in
      let (end, e, quiet) =
        delete_rows-total (sel start) (sent start) (ap later_faults (ap later_faults up)) s.check in
      let ran : sweep_body start ≡ (ok (sel start), end) =
        >>=-eq (query sel) _ start (sent start) (sel start) _
          (query-eq sel start (ap later_faults up)) e in
      let (_, left) = body-ok key test (suc limit) sel selects start end (sel start) ran in
      (
        sent end,
        transaction-eq sweep_body db end (chosen key (test db.now) (suc limit) db.objects) up
            (ran ∙ ap (λ r. (ok r, end)) (selects start)) quiet,
        ap (λ f. with_faults end (later_faults f)) quiet
            ∙ ap (λ d. with_faults d []) left
            ∙ ap (λ r. without r db) (selects start),
      )

  -- It has fewer rows that it would delete, if it has any.
  sweep-count :
      (k : ℕ) (db : Db)
      → db.faults ≡ []
      → IsSound db
      → count (test db.now) db.objects ≤ suc k
      → count (test db.now) (transaction sweep_body db).1.objects ≤ k
  sweep-count k db up s few =
      let (db', e, left) = sweep-eq db up s in
      let rows = chosen key (test db.now) (suc limit) db.objects in
      let after : count (test db.now) (transaction sweep_body db).1.objects
          ≡ count (test db.now) (filter (spared rows) db.objects) =
        ap (λ x. count (test db.now) x.1.objects) e
        ∙ ap (λ d. count (test db.now) d.objects) left in
      subst (λ n. n ≤ k) (sym after)
        (fewer key (test db.now) limit db.next_object_id k db.objects s.ids few)

  sweep-quiet : (db : Db) → db.faults ≡ [] → IsSound db → (transaction sweep_body db).1.faults ≡ []
  sweep-quiet db up s =
      let (db', e, left) = sweep-eq db up s in ap (λ x. x.1.faults) e ∙ ap (λ d. d.faults) left

  sweep-now : (db : Db) → db.faults ≡ [] → IsSound db → (transaction sweep_body db).1.now ≡ db.now
  sweep-now db up s =
      let (db', e, left) = sweep-eq db up s in ap (λ x. x.1.now) e ∙ ap (λ d. d.now) left

unfoldable pub repeat : ℕ → (Db → Db) → Db → Db
repeat zero f db = db
repeat (suc n) f db = repeat n f (f db)

count-ext :
    (p q : Object → Bool) (os : List Object) → ((o : Object) → p o ≡ q o) → count p os ≡ count q os
unfolding count
count-ext p q [] h = refl
count-ext p q (o ∷ os) h = ground (arith, h o, count-ext p q os h)

-- A step that keeps the tables sound, fails no statement, and deletes a row while there is one.
repeat-drains :
    (test : ℕ → Object → Bool) (step : Db → Db)
    → ((db : Db) → IsSound db → IsSound (step db))
    → ((db : Db) → db.faults ≡ [] → IsSound db → (step db).faults ≡ [])
    → ((db : Db) → db.faults ≡ [] → IsSound db → (step db).now ≡ db.now)
    → ((k : ℕ) (db : Db)
        → db.faults ≡ []
        → IsSound db
        → count (test db.now) db.objects ≤ suc k
        → count (test db.now) (step db).objects ≤ k)
    → (k : ℕ) (db : Db) → db.faults ≡ []
    → IsSound db
    → count (test db.now) db.objects ≤ k
    → count (test db.now) (repeat k step db).objects ≡ 0
unfolding repeat
repeat-drains test step sound quiet clock drains zero db up s few = omega (arith, few)
repeat-drains test step sound quiet clock drains (suc k) db up s few =
    let same = clock db up s in
    subst (λ now. count (test now) (repeat k step (step db)).objects ≡ 0) same
      (repeat-drains test step sound quiet clock drains k (step db) (quiet db up s) (sound db s)
        (subst (λ now. count (test now) (step db).objects ≤ k) (sym same) (drains k db up s few)))

abbrev pub not_locked : Object → Bool
not_locked o = false

-- Where every statement is served, no row is locked and no time passes, sound tables with at most k
-- orphans of the age have none after k runs of SweepOrphanObjects, whatever its limit, if that is
-- positive.
pub sweep_orphan_objects-drains :
    (age limit k : ℕ) (db : Db)
    → db.faults ≡ []
    → IsSound db
    → count (is_orphan age db.now) db.objects ≤ k
    → count
        (is_orphan age db.now)
        (repeat k (λ d. (sweep_orphan_objects not_locked age (suc limit) d).1) db).objects
      ≡ 0
unfolding sweep_orphan_objects
sweep_orphan_objects-drains age limit k db up s few =
    let same : (o : Object) → Orphans.test not_locked age db.now o ≡ is_orphan age db.now o =
      λ o. ground arith in
    let sel = Orphans.selects not_locked age (suc limit) in
    sym (count-ext _ _ _ same)
    ∙ repeat-drains (Orphans.test not_locked age) _
        (sweep_orphan_objects-IsSound not_locked age (suc limit))
        (sweep-quiet _ (Orphans.test not_locked age) limit _ sel)
        (sweep-now _ (Orphans.test not_locked age) limit _ sel)
        (sweep-count _ (Orphans.test not_locked age) limit _ sel) k db up s
        (subst (λ n. n ≤ k) (sym (count-ext _ _ db.objects same)) few)

-- Where every statement is served and no row is locked, sound tables with at most k verified rows
-- that nothing is linked to have none after k runs of SweepUnreferencedObjects, whatever its limit,
-- if that is positive.
pub sweep_unreferenced_objects-drains :
    (limit k : ℕ) (db : Db)
    → db.faults ≡ []
    → IsSound db
    → count is_unreferenced db.objects ≤ k
    → count is_unreferenced
        (repeat k (λ d. (sweep_unreferenced_objects not_locked (suc limit) d).1) db).objects
      ≡ 0
unfolding sweep_unreferenced_objects
sweep_unreferenced_objects-drains limit k db up s few =
    let same : (o : Object) → Unreferenced.test not_locked db.now o ≡ is_unreferenced o =
      λ o. ground arith in
    let sel = Unreferenced.selects not_locked (suc limit) in
    sym (count-ext _ _ _ same)
    ∙ repeat-drains (Unreferenced.test not_locked) _
        (sweep_unreferenced_objects-IsSound not_locked (suc limit))
        (sweep-quiet _ (Unreferenced.test not_locked) limit _ sel)
        (sweep-now _ (Unreferenced.test not_locked) limit _ sel)
        (sweep-count _ (Unreferenced.test not_locked) limit _ sel) k db up s
        (subst (λ n. n ≤ k) (sym (count-ext _ _ db.objects same)) few)
