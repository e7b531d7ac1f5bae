-- ===== src/Database/Sweeps/Orphans.antt =====
-- SweepOrphanObjects: it deletes old rows that were never verified, and no other.
use git_lfs_server.Base.{
  ℕ, suc, zero, ◌≤◌, ◌<◌, ◌+◌, ◌≡◌, refl, Bool, true, false, not, ◌&&◌, some, List, [], ◌∷◌, All,
  All-map, length, is_some, arith, inl,
}
use git_lfs_server.Base.Int.{ℤ}
use git_lfs_server.Base.Text.{Str}
use git_lfs_server.Error.{ok}
use git_lfs_server.Database.Schema.{Object, RepoObject, Db}
use git_lfs_server.Database.Statements.{find, has_id, is_orphan, select_orphans}
use git_lfs_server.Database.Objects.{sweep_orphan_objects}
use git_lfs_server.Database.Invariant.{IsSound}
use git_lfs_server.Database.Link.{IsStored}
use git_lfs_server.Database.Sweeps.Chosen.{chosen}
use git_lfs_server.Database.Sweeps.Kept.{IsUnlinked}
use git_lfs_server.Database.Sweeps.Body.{swept-rows, swept-IsSound, swept-IsStored}

module _ (locked : Object → Bool) (age : ℕ) where
  abbrev pub test : ℕ → Object → Bool
  test now o = is_orphan age now o && not (locked o)

  pub selects :
      (limit : ℕ) (db : Db)
      → select_orphans locked age limit db
        ≡ chosen (λ o. o.created_at) (test db.now) limit db.objects
  unfolding select_orphans
  selects limit db = refl

  pub orphan-IsUnlinked :
      (now : ℕ) (ls : List RepoObject) (os : List Object)
      → All (λ o. test now o ≡ true → IsUnlinked ls o) os
  orphan-IsUnlinked now ls [] = tt
  orphan-IsUnlinked now ls (o ∷ os) = (λ h. inl (ground arith), orphan-IsUnlinked now ls os)

  abbrev pub IsOrphan : ℕ → Object → Type 0
  IsOrphan now o = (is_some o.verified_at ≡ false) × (o.created_at + age < now) × (locked o ≡ false)

  -- The rows that SweepOrphanObjects returns are at most `limit` rows of the table, none of them
  -- verified or locked, all of them older than the age.
  pub sweep_orphan_objects-rows :
      (limit : ℕ) (db db' : Db) (rows : List Object)
      → IsSound db
      → sweep_orphan_objects locked age limit db ≡ (ok rows, db')
      → (length rows ≤ limit)
        × All (λ r. (find (has_id r.id) db.objects ≡ some r) × IsOrphan db.now r) rows
  unfolding sweep_orphan_objects
  sweep_orphan_objects-rows zero db db' rows s h =
      let e : rows ≡ [] = ground arith in rw e (omega arith, tt)
  sweep_orphan_objects-rows (suc limit) db db' rows s h =
      let (few, hits) = swept-rows _ test (suc limit) _ (selects (suc limit)) db db' rows s h in
      (few, All-map rows (λ r k. (k.0, ground (arith, k.1))) hits)

  -- SweepOrphanObjects keeps the tables sound, whatever it returns and whichever statements fail.
  pub sweep_orphan_objects-IsSound :
      (limit : ℕ) (db : Db) → IsSound db → IsSound (sweep_orphan_objects locked age limit db).1
  unfolding sweep_orphan_objects
  sweep_orphan_objects-IsSound zero db s = s
  sweep_orphan_objects-IsSound (suc limit) db s =
      swept-IsSound _ test (suc limit) _ (selects (suc limit))
        (λ d k. orphan-IsUnlinked d.now d.repo_objects d.objects) db s

  -- What is stored for a repository stays stored when SweepOrphanObjects has run.
  pub sweep_orphan_objects-IsStored :
      (limit : ℕ) (repo oid : Str) (size : ℤ) (uri : Str) (db : Db)
      → IsSound db
      → IsStored repo oid size uri db
      → IsStored repo oid size uri (sweep_orphan_objects locked age limit db).1
  unfolding sweep_orphan_objects
  sweep_orphan_objects-IsStored zero repo oid size uri db sound s = s
  sweep_orphan_objects-IsStored (suc limit) repo oid size uri db sound s =
      swept-IsStored _ test (suc limit) _ (selects (suc limit))
        (λ d k. orphan-IsUnlinked d.now d.repo_objects d.objects) repo oid size uri
        (λ d k t h. ground (arith, t.verified)) db sound s
