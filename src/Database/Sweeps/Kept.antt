-- ===== src/Database/Sweeps/Kept.antt =====
-- A sweep keeps the tables sound and deletes no row that a download can be served from.
use git_lfs_server.Base.{
  ℕ, ◌≡◌, refl, ap, Bool, true, false, not, ◌&&◌, List, [], ◌∷◌, map, all, All, All-map, All-filter,
  filter, count, is_some, arith, inl, inr, ◌⊎◌, Bool-cases,
}
use git_lfs_server.Error.{ok}
use git_lfs_server.Database.Schema.{Object, RepoObject, Db, consistent}
use git_lfs_server.Database.Exec.{◌>>=◌, command}
use git_lfs_server.Database.Statements.{has_id, any_id, of_object, delete_ids}
use git_lfs_server.Database.Objects.{delete_rows}
use git_lfs_server.Database.Invariant.{Below, DistinctOids, holds_verified, LinksHold, IsSound}
use git_lfs_server.Database.Invariant.Rows.{Below-mono}

-- No link leads to the row.
abbrev pub IsUnlinked : List RepoObject → Object → Type 0
IsUnlinked ls o = (is_some o.verified_at ≡ false) ⊎ (count (of_object o.id) ls ≡ 0)

module _ (p : Object → Bool) where
  filter-Below : (n : ℕ) (os : List Object) → Below n os → Below n (filter p os)
  unfolding filter
  filter-Below n [] b = tt
  filter-Below n (o ∷ os) b = elim (Bool-cases (p o)) [
    | inl e ↦ rw e (b.0, filter-Below o.id os b.1)
    | inr e ↦ rw e (filter-Below n os (Below-mono os (omega arith) b.1))
  ]

  filter-All {κ} : (P : Object → Type κ) (os : List Object) → All P os → All P (filter p os)
  filter-All P os h = All-map (filter p os) (λ o k. k.0) (All-filter P p os h)

  filter-DistinctOids : (os : List Object) → DistinctOids os → DistinctOids (filter p os)
  unfolding filter
  filter-DistinctOids [] d = tt
  filter-DistinctOids (o ∷ os) d = elim (Bool-cases (p o)) [
    | inl e ↦ rw e (filter-All _ os d.0, filter-DistinctOids os d.1)
    | inr e ↦ rw e (filter-DistinctOids os d.1)
  ]

  pub filter-consistent :
      (os : List Object) → all consistent os ≡ true → all consistent (filter p os) ≡ true
  unfolding filter
  filter-consistent [] h = refl
  filter-consistent (o ∷ os) h = ground (arith, filter-consistent os)

  filter-holds_verified :
      (id : ℕ) (os : List Object)
      → All (λ o. p o ≡ false → (has_id id o && is_some o.verified_at) ≡ false) os
      → holds_verified id os ≡ true
      → holds_verified id (filter p os) ≡ true
  unfolding filter holds_verified
  filter-holds_verified id [] a h = h
  filter-holds_verified id (o ∷ os) a h = ground (arith, a.0, filter-holds_verified id os a.1)

  filter-LinksHold :
      (os : List Object) (ls : List RepoObject)
      → All (λ o. p o ≡ false → IsUnlinked ls o) os
      → LinksHold os ls
      → LinksHold (filter p os) ls
  unfolding count
  filter-LinksHold os [] a h = tt
  filter-LinksHold os (l ∷ ls) a h = (
    filter-holds_verified l.object_id os (All-map os (λ o u gone. ground (arith, u gone)) a) h.0,
    filter-LinksHold os ls (All-map os (λ o u gone. ground (arith, u gone)) a) h.1,
  )

  -- Deleting rows that no link leads to.
  pub filter-IsSound :
      (db : Db)
      → All (λ o. p o ≡ false → IsUnlinked db.repo_objects o) db.objects
      → IsSound db
      → IsSound (record db { objects = filter p db.objects })
  filter-IsSound db a s = record {
    positive = s.positive;
    ids = filter-Below db.next_object_id db.objects s.ids;
    oids = filter-DistinctOids db.objects s.oids;
    check = filter-consistent db.objects s.check;
    links = s.links;
    held = filter-LinksHold db.objects db.repo_objects a s.held;
    counted = filter-All _ db.objects s.counted;
  }

-- What is left after `delete_rows`.
abbrev pub remaining : List Object → List Object → List Object
remaining rows os = filter (λ o. not (any_id (map (λ r. r.id) rows) o)) os

filter-true : (os : List Object) → filter (λ o. true) os ≡ os
unfolding filter
filter-true [] = refl
filter-true (o ∷ os) = ap (λ r. o ∷ r) (filter-true os)

pub delete_rows-ok :
    (rows : List Object) (db db' : Db) (out : List Object)
    → delete_rows rows db ≡ (ok out, db')
    → (out ≡ rows) × (db' ≡ record db { objects = remaining rows db.objects; faults = db'.faults })
unfolding delete_rows delete_ids ◌>>=◌ command
delete_rows-ok [] db db' out h = ground (arith, filter-true db.objects)
delete_rows-ok (r ∷ rows) db db' out h = ground arith
