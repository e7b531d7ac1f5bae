-- ===== src/Database/Sweeps/Unreferenced.antt =====
-- SweepUnreferencedObjects: it deletes verified rows that no repository is linked to, and no other.
use git_lfs_server.Base.{
  ℕ, suc, zero, ◌≤◌, ◌≡◌, ◌≢◌, refl, sym, ◌∙◌, Bool, true, false, not, ◌&&◌, some, List, [], ◌∷◌,
  All, All-map, count, length, is_some, arith, inr,
}
use git_lfs_server.Base.Int.{ℤ}
use git_lfs_server.Base.Text.{Str}
use git_lfs_server.Error.{ok}
use git_lfs_server.Database.Schema.{Object, RepoObject, Db}
use git_lfs_server.Database.Statements.{
  find, has_id, has_oid, is_unreferenced, time_or_zero, select_unreferenced, is_linked, of_object,
}
use git_lfs_server.Database.Objects.{sweep_unreferenced_objects}
use git_lfs_server.Database.Invariant.{IsSound, Counted}
use git_lfs_server.Database.Link.{IsStored}
use git_lfs_server.Database.Sweeps.Chosen.{chosen}
use git_lfs_server.Database.Sweeps.Kept.{IsUnlinked}
use git_lfs_server.Database.Sweeps.Body.{swept-rows, swept-IsSound, swept-IsStored, find-All}

-- A linked row has a link to count.
pub count-linked :
    (repo : Str) (id : ℕ) (ls : List RepoObject)
    → is_linked repo id ls ≡ true
    → count (of_object id) ls ≢ 0
unfolding is_linked find count
count-linked repo id [] h e = cc
count-linked repo id (l ∷ ls) h e = ground (arith, count-linked repo id ls)

module _ (locked : Object → Bool) where
  abbrev pub test : ℕ → Object → Bool
  test now o = is_unreferenced o && not (locked o)

  pub selects :
      (limit : ℕ) (db : Db)
      → select_unreferenced locked limit db
        ≡ chosen (λ o. time_or_zero o.verified_at) (test db.now) limit db.objects
  unfolding select_unreferenced
  selects limit db = refl

  pub unreferenced-IsUnlinked :
      (db : Db)
      → IsSound db
      → All (λ o. test db.now o ≡ true → IsUnlinked db.repo_objects o) db.objects
  unreferenced-IsUnlinked db s =
      All-map db.objects (λ o counted h. inr (sym counted ∙ ground arith)) s.counted

  abbrev pub IsUnreferenced : Object → Type 0
  IsUnreferenced o = (is_some o.verified_at ≡ true) × (o.repo_count ≡ 0) × (locked o ≡ false)

  -- The rows that SweepUnreferencedObjects returns are at most `limit` rows of the table, all of
  -- them verified, with a count of 0, and not locked.
  pub sweep_unreferenced_objects-rows :
      (limit : ℕ) (db db' : Db) (rows : List Object)
      → IsSound db
      → sweep_unreferenced_objects locked limit db ≡ (ok rows, db')
      → (length rows ≤ limit)
        × All (λ r. (find (has_id r.id) db.objects ≡ some r) × IsUnreferenced r) rows
  unfolding sweep_unreferenced_objects
  sweep_unreferenced_objects-rows zero db db' rows s h =
      let e : rows ≡ [] = ground arith in rw e (omega arith, tt)
  sweep_unreferenced_objects-rows (suc limit) db db' rows s h =
      let (few, hits) = swept-rows _ test (suc limit) _ (selects (suc limit)) db db' rows s h in
      (few, All-map rows (λ r k. (k.0, ground (arith, k.1))) hits)

  -- SweepUnreferencedObjects keeps the tables sound, whatever it returns and whichever statements
  -- fail.
  pub sweep_unreferenced_objects-IsSound :
      (limit : ℕ) (db : Db) → IsSound db → IsSound (sweep_unreferenced_objects locked limit db).1
  unfolding sweep_unreferenced_objects
  sweep_unreferenced_objects-IsSound zero db s = s
  sweep_unreferenced_objects-IsSound (suc limit) db s =
      swept-IsSound _ test (suc limit) _ (selects (suc limit)) unreferenced-IsUnlinked db s

  -- What is stored for a repository stays stored when SweepUnreferencedObjects has run.
  pub sweep_unreferenced_objects-IsStored :
      (limit : ℕ) (repo oid : Str) (size : ℤ) (uri : Str) (db : Db)
      → IsSound db
      → IsStored repo oid size uri db
      → IsStored repo oid size uri (sweep_unreferenced_objects locked limit db).1
  unfolding sweep_unreferenced_objects
  sweep_unreferenced_objects-IsStored zero repo oid size uri db sound s = s
  sweep_unreferenced_objects-IsStored (suc limit) repo oid size uri db sound s =
      swept-IsStored _ test (suc limit) _ (selects (suc limit)) unreferenced-IsUnlinked repo oid
        size uri
        (λ d k t h.
          let counted =
            find-All (Counted d.repo_objects) (has_oid oid) d.objects t.row k.counted t.found in
          ground (arith, count-linked repo t.row.id d.repo_objects t.linked))
        db sound s
