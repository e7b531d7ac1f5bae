-- ===== src/Database/Catalog/Taken.antt =====
-- The rows that the sweeps return, against the catalog.
use git_lfs_server.Base.{
  ℕ, suc, zero, ◌≡◌, ap, ◌∙◌, Bool, true, none, some, List, [], ◌∷◌, map, All, All-map, All-map₂,
  filter, ◌⊎◌, arith, inl, inr, Bool-cases, Option-cases,
}
use git_lfs_server.Base.Int.{ℤ}
use git_lfs_server.Base.Text.{Str}
use git_lfs_server.Error.{ok}
use git_lfs_server.Database.Schema.{Object, Db, consistent}
use git_lfs_server.Database.Exec.{transaction}
use git_lfs_server.Database.Statements.{find, has_id, has_oid, any_id}
use git_lfs_server.Database.Objects.{sweep_orphan_objects, sweep_unreferenced_objects}
use git_lfs_server.Database.Invariant.{DistinctOids, IsSound}
use git_lfs_server.Database.Invariant.Rows.{find-consistent}
use git_lfs_server.Database.Sweeps.Chosen.{chosen}
use git_lfs_server.Database.Sweeps.Kept.{IsUnlinked}
use git_lfs_server.Database.Sweeps.Body.{swept-rows, find-All}
use git_lfs_server.Database.Sweeps.Unreferenced
use git_lfs_server.Database.Sweeps.Orphans
use git_lfs_server.Database.Sweeps.Unreferenced.{unreferenced-IsUnlinked}
use git_lfs_server.Database.Sweeps.Orphans.{orphan-IsUnlinked}
use git_lfs_server.Database.Catalog.{Catalog, entry, view}
use git_lfs_server.Database.Catalog.Deleted.{kept, find-kept}
use git_lfs_server.Database.Catalog.Sweeps.{sweep_body, spared, swept-ok}

-- Object ids are distinct: a row of the table is the row of its object id.
find_by_oid :
    (id : ℕ) (os : List Object) (o : Object)
    → DistinctOids os
    → find (has_id id) os ≡ some o
    → find (has_oid o.oid) os ≡ some o
unfolding find
find_by_oid id [] o d h = cc
find_by_oid id (x ∷ os) o d h = elim (Bool-cases (has_id id x)) [
  | inl e ↦ let same : x ≡ o = ground arith in ground arith
  | inr e ↦
      let left = rw e at h in
      let apart = find-All _ (has_id id) os o d.0 left in
      let rest = find_by_oid id os o d.1 left in ground arith
]

members_any_id : (rows : List Object) → All (λ r. any_id (map (λ x. x.id) rows) r ≡ true) rows
members_any_id [] = tt
members_any_id (r ∷ rows) = (ground arith, All-map rows (λ x h. ground arith) (members_any_id rows))

-- A row that a sweep has taken: it waited for its upload, or its object has left the catalog.
abbrev pub IsTaken : Catalog → Catalog → Object → Type 0
IsTaken before after r =
    (r.object_uri ≡ none)
    ⊎ ((size : ℤ) × (uri : Str) × (r.object_uri ≡ some uri)
        × (before.object r.oid ≡ some (size, uri))
        × (after.object r.oid ≡ none))

row-entry :
    (r : Object)
    → consistent r ≡ true
    → (r.object_uri ≡ none)
      ⊎ ((size : ℤ) × (uri : Str) × (r.object_uri ≡ some uri) × (entry (some r) ≡ some (size, uri)))
row-entry r h = elim (Option-cases r.object_uri) [
  | inl e ↦ inl e
  | inr (uri, e) ↦ elim (Option-cases r.size) [
    | inl k ↦ absurd (ground arith)
    | inr (size, k) ↦ inr (size, uri, e, ground arith)
  ]
]

module _ (key : Object → ℕ) (test : ℕ → Object → Bool) (limit : ℕ) (sel : Db → List Object)
    (selects : (db : Db) → sel db ≡ chosen key (test db.now) limit db.objects)
    (unlinked : (db : Db)
      → IsSound db
      → All (λ o. test db.now o ≡ true → IsUnlinked db.repo_objects o) db.objects) where
  IsTaken-row :
      (db db' : Db) (rows : List Object) (r : Object)
      → IsSound db
      → view db'
        ≡ view (record db {
          objects = filter (spared key test limit sel selects unlinked rows) db.objects;
        })
      → find (has_id r.id) db.objects ≡ some r
      → any_id (map (λ x. x.id) rows) r ≡ true
      → IsTaken (view db) (view db') r
  unfolding view
  IsTaken-row db db' rows r s left there gone =
      let here = find_by_oid r.id db.objects r s.oids there in
      elim (row-entry r (find-consistent (has_id r.id) db.objects r s.check there)) [
        | inl e ↦ inl e
        | inr (size, uri, e, k) ↦ inr (
          size,
          uri,
          e,
          ap entry here ∙ k,
          ap (λ c. c.object r.oid) left
              ∙ ap entry (find-kept r.oid _ db.objects s.oids ∙ ap (kept _) here)
              ∙ ground arith,
        )
      ]

  taken :
      (db db' : Db) (rows : List Object)
      → IsSound db
      → transaction (sweep_body key test limit sel selects unlinked) db ≡ (ok rows, db')
      → All (IsTaken (view db) (view db')) rows
  taken db db' rows s h =
      let (left, _) = swept-ok key test limit sel selects unlinked db db' rows s h in
      let (_, found) = swept-rows key test limit sel selects db db' rows s h in
      All-map₂ rows (λ r f gone. IsTaken-row db db' rows r s left f.0 gone) found
        (members_any_id rows)

-- What SweepOrphanObjects returns are rows that it has taken.
pub sweep_orphan_objects-IsTaken :
    (locked : Object → Bool) (age limit : ℕ) (db db' : Db) (rows : List Object)
    → IsSound db
    → sweep_orphan_objects locked age limit db ≡ (ok rows, db')
    → All (IsTaken (view db) (view db')) rows
unfolding sweep_orphan_objects
sweep_orphan_objects-IsTaken locked age zero db db' rows s h =
    let none_taken : rows ≡ [] = ground arith in rw none_taken tt
sweep_orphan_objects-IsTaken locked age (suc limit) db db' rows s h =
    taken _ (Orphans.test locked age) (suc limit) _ (Orphans.selects locked age (suc limit))
      (λ d k. orphan-IsUnlinked locked age d.now d.repo_objects d.objects) db db' rows s h

-- What SweepUnreferencedObjects returns are rows that it has taken.
pub sweep_unreferenced_objects-IsTaken :
    (locked : Object → Bool) (limit : ℕ) (db db' : Db) (rows : List Object)
    → IsSound db
    → sweep_unreferenced_objects locked limit db ≡ (ok rows, db')
    → All (IsTaken (view db) (view db')) rows
unfolding sweep_unreferenced_objects
sweep_unreferenced_objects-IsTaken locked zero db db' rows s h =
    let none_taken : rows ≡ [] = ground arith in rw none_taken tt
sweep_unreferenced_objects-IsTaken locked (suc limit) db db' rows s h =
    taken _ (Unreferenced.test locked) (suc limit) _ (Unreferenced.selects locked (suc limit))
      (unreferenced-IsUnlinked locked) db db' rows s h
