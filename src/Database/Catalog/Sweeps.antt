-- ===== src/Database/Catalog/Sweeps.antt =====
-- SweepOrphanObjects and SweepUnreferencedObjects, as the catalog sees them.
use git_lfs_server.Base.{
  ℕ, suc, zero, ◌≡◌, refl, sym, ap, ◌∙◌, Bool, true, false, not, none, some, List, map, All,
  All-map, All-map₂, filter, arith, inl, inr, Option-cases,
}
use git_lfs_server.Base.Text.{Str}
use git_lfs_server.Error.{Result, ok, err}
use git_lfs_server.Database.Schema.{Object, Db}
use git_lfs_server.Database.Exec.{Exec, query, ◌>>=◌, sent, transaction}
use git_lfs_server.Database.Exec.Laws.{transaction-ok}
use git_lfs_server.Database.Statements.{find, has_oid, any_id}
use git_lfs_server.Database.Objects.{delete_rows, sweep_orphan_objects, sweep_unreferenced_objects}
use git_lfs_server.Database.Invariant.{IsSound}
use git_lfs_server.Database.Sweeps.Chosen.{chosen}
use git_lfs_server.Database.Sweeps.Kept.{IsUnlinked}
use git_lfs_server.Database.Sweeps.Body.{body-ok, deleted, find-All}
use git_lfs_server.Database.Sweeps.Unreferenced
use git_lfs_server.Database.Sweeps.Orphans
use git_lfs_server.Database.Sweeps.Unreferenced.{count-linked, unreferenced-IsUnlinked}
use git_lfs_server.Database.Sweeps.Orphans.{orphan-IsUnlinked}
use git_lfs_server.Database.Catalog.{Catalog, Forgets, entry, view, drop_objects}
use git_lfs_server.Database.Catalog.Refines.{Catalog-ext, transaction-view-err}
use git_lfs_server.Database.Catalog.Deleted.{removed, removed-linked, remaining-view}

not-false : (b : Bool) → not b ≡ false → b ≡ true
not-false true h = refl
not-false false h = cc

drop_nothing :
    (gone : Str → Bool) (c : Catalog)
    → ((oid : Str) → gone oid ≡ true → c.object oid ≡ none)
    → drop_objects gone c ≡ c
unfolding drop_objects
drop_nothing gone c h = Catalog-ext (λ oid. ground (arith, h oid)) (λ repo oid. refl)

-- A deleted row was none of the catalog's.
removed-entry :
    (q : Object → Bool) (os : List Object)
    → All (λ o. q o ≡ false → entry (some o) ≡ none) os
    → (oid : Str) → removed q (find (has_oid oid) os) ≡ true
    → entry (find (has_oid oid) os) ≡ none
removed-entry q os a oid gone = elim (Option-cases (find (has_oid oid) os)) [
  | inl e ↦ rw e refl
  | inr (o, e) ↦ let hit = rw e at gone in rw e (find-All _ (has_oid oid) os o a e (ground arith))
]

module _ (key : Object → ℕ) (test : ℕ → Object → Bool) (limit : ℕ) (sel : Db → List Object)
    (selects : (db : Db) → sel db ≡ chosen key (test db.now) limit db.objects)
    (unlinked : (db : Db)
      → IsSound db
      → All (λ o. test db.now o ≡ true → IsUnlinked db.repo_objects o) db.objects) where
  abbrev pub sweep_body : Exec (List Object)
  sweep_body = do rows ← query sel; delete_rows rows

  abbrev pub spared : List Object → Object → Bool
  spared rows o = not (any_id (map (λ r. r.id) rows) o)

  pub swept-ok :
      (db db' : Db) (rows : List Object)
      → IsSound db
      → transaction sweep_body db ≡ (ok rows, db')
      → view db' ≡ view (record db { objects = filter (spared rows) db.objects })
        × All (λ o. spared rows o ≡ false → test db.now o ≡ true) db.objects
  unfolding view
  swept-ok db db' rows s h =
      let (end, e, last) = transaction-ok sweep_body db db' rows h in
      let (same, left) = body-ok key test limit sel selects (sent db) end rows e in
      (
        ap view last ∙ ap view left,
        All-map db.objects (λ o gone k. gone (not-false _ k))
            (deleted key test limit sel selects db rows s same),
      )

  -- A sweep of rows that are not in the catalog does not change it.
  swept-same :
      ((now : ℕ) (o : Object) → test now o ≡ true → entry (some o) ≡ none)
      → (db : Db) → IsSound db
      → view (transaction sweep_body db).1 ≡ view db
  unfolding view
  swept-same absent db s = go _ _ refl
    where
      go :
          (r : Result (List Object)) (db' : Db)
          → transaction sweep_body db ≡ (r, db')
          → view db' ≡ view db
      go (err e) db' h = transaction-view-err sweep_body db db' e h
      go (ok rows) db' h =
          let (left, tested) = swept-ok db db' rows s h in
          let free = All-map₂ db.objects (λ o k u gone. u (k gone)) tested (unlinked db s) in
          left
          ∙ remaining-view (spared rows) db s free
          ∙ drop_nothing _ (view db) (
              removed-entry (spared rows) db.objects
                (All-map db.objects (λ o k gone. absent db.now o (k gone)) tested))

  swept-Forgets : (db : Db) → IsSound db → Forgets (view db) (view (transaction sweep_body db).1)
  unfolding view
  swept-Forgets db s = go _ _ refl
    where
      go :
          (r : Result (List Object)) (db' : Db)
          → transaction sweep_body db ≡ (r, db')
          → Forgets (view db) (view db')
      go (err e) db' h = record {
        gone = λ oid. false;
        unlinked = λ oid repo k. cc;
        dropped =
            transaction-view-err sweep_body db db' e h
            ∙ sym (drop_nothing (λ oid. false) (view db) (λ oid k. cc));
      }
      go (ok rows) db' h =
          let (left, tested) = swept-ok db db' rows s h in
          let free = All-map₂ db.objects (λ o k u gone. u (k gone)) tested (unlinked db s) in
          record {
            gone = λ oid. removed (spared rows) (find (has_oid oid) db.objects);
            unlinked = removed-linked (spared rows) db s free;
            dropped = left ∙ remaining-view (spared rows) db s free;
          }

-- SweepOrphanObjects leaves the catalog of sound tables as it is.
pub sweep_orphan_objects-refines :
    (locked : Object → Bool) (age limit : ℕ) (db : Db)
    → IsSound db
    → view (sweep_orphan_objects locked age limit db).1 ≡ view db
unfolding sweep_orphan_objects
sweep_orphan_objects-refines locked age zero db s = refl
sweep_orphan_objects-refines locked age (suc limit) db s =
    swept-same _ (Orphans.test locked age) (suc limit) _ (Orphans.selects locked age (suc limit))
      (λ d k. orphan-IsUnlinked locked age d.now d.repo_objects d.objects) (λ now o h. ground arith)
      db s

-- SweepUnreferencedObjects takes from the catalog of sound tables only objects that no repository
-- is linked to.
pub sweep_unreferenced_objects-Forgets :
    (locked : Object → Bool) (limit : ℕ) (db : Db)
    → IsSound db
    → Forgets (view db) (view (sweep_unreferenced_objects locked limit db).1)
unfolding sweep_unreferenced_objects
sweep_unreferenced_objects-Forgets locked zero db s = record {
  gone = λ oid. false;
  unlinked = λ oid repo k. cc;
  dropped = sym (drop_nothing (λ oid. false) (view db) (λ oid k. cc));
}
sweep_unreferenced_objects-Forgets locked (suc limit) db s =
    swept-Forgets _ (Unreferenced.test locked) (suc limit) _
      (Unreferenced.selects locked (suc limit)) (unreferenced-IsUnlinked locked) db s
