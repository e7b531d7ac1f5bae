-- ===== src/Database/Catalog/Deleted.antt =====
-- Deleting rows of the table of objects, as the catalog sees it.
use git_lfs_server.Base.{
  ℕ, ◌≡◌, refl, ap, ◌∙◌, ◌≢◌, Bool, true, false, not, Option, none, some, List, [], ◌∷◌, All,
  filter, is_some, arith, inl, inr, Option-cases, Bool-cases, if◌then◌else◌,
}
use git_lfs_server.Base.Text.{Str}
use git_lfs_server.Database.Schema.{Object, Db}
use git_lfs_server.Database.Statements.{find, has_oid, is_linked}
use git_lfs_server.Database.Invariant.{Below, DistinctOids, holds_verified, IsSound}
use git_lfs_server.Database.Invariant.Rows.{holds_verified_above, find-Below}
use git_lfs_server.Database.Sweeps.Kept.{IsUnlinked}
use git_lfs_server.Database.Sweeps.Body.{find-All}
use git_lfs_server.Database.Sweeps.Unreferenced.{count-linked}
use git_lfs_server.Database.Catalog.{entry, row_linked, view, drop_objects}
use git_lfs_server.Database.Catalog.Links.{unheld-linked}
use git_lfs_server.Database.Catalog.Refines.{Catalog-ext}

abbrev pub kept : (Object → Bool) → Option Object → Option Object
kept q none = none
kept q (some o) = if q o then some o else none

missed :
    (name oid : Str) (q : Object → Bool) (os : List Object)
    → All (λ o. o.oid ≢ name) os
    → name ≡ oid
    → find (has_oid oid) (filter q os) ≡ none
unfolding find filter
missed name oid q [] h e = refl
missed name oid q (o ∷ os) h e = ground (arith, h.0, missed name oid q os h.1 e)

-- Object ids are distinct: if the row of an object id is deleted, then no other row has it.
pub find-kept :
    (oid : Str) (q : Object → Bool) (os : List Object)
    → DistinctOids os
    → find (has_oid oid) (filter q os) ≡ kept q (find (has_oid oid) os)
unfolding find filter
find-kept oid q [] d = refl
find-kept oid q (o ∷ os) d = ground (arith, find-kept oid q os d.1, missed o.oid oid q os d.0)

-- A row that waits for its upload is held by no link.
find-unverified :
    (p : Object → Bool) (n : ℕ) (os : List Object) (o : Object)
    → Below n os
    → find p os ≡ some o
    → is_some o.verified_at ≡ false
    → holds_verified o.id os ≡ false
unfolding find holds_verified
find-unverified p n [] o b h v = cc
find-unverified p n (x ∷ os) o b h v = ground (
  arith,
  find-unverified p x.id os o b.1,
  find-Below p x.id os o b.1,
  holds_verified_above o.id x.id os b.1,
)

-- No repository is linked to a row that no link leads to.
unlinked-row :
    (key repo : Str) (db : Db) (o : Object)
    → IsSound db
    → find (has_oid key) db.objects ≡ some o
    → IsUnlinked db.repo_objects o
    → is_linked repo o.id db.repo_objects ≡ false
unlinked-row key repo db o s h (inl pending) =
    unheld-linked repo o.id db.objects db.repo_objects s.held
      (find-unverified (has_oid key) db.next_object_id db.objects o s.ids h pending)
unlinked-row key repo db o s h (inr none_left) =
    elim (Bool-cases (is_linked repo o.id db.repo_objects)) [
      | inl e ↦ absurd (count-linked repo o.id db.repo_objects e none_left)
      | inr e ↦ e
    ]

-- The object ids whose rows a statement deletes.
abbrev pub removed : (Object → Bool) → Option Object → Bool
removed q none = false
removed q (some o) = not (q o)

module _ (q : Object → Bool) (db : Db) (s : IsSound db)
    (free : All (λ o. q o ≡ false → IsUnlinked db.repo_objects o) db.objects) where
  pub removed-linked :
      (key repo : Str)
      → removed q (find (has_oid key) db.objects) ≡ true
      → row_linked db.repo_objects repo (find (has_oid key) db.objects) ≡ false
  removed-linked key repo h = elim (Option-cases (find (has_oid key) db.objects)) [
    | inl e ↦ rw e refl
    | inr (o, e) ↦
        let gone = rw e at h in
        let unlinked = find-All _ (has_oid key) db.objects o free e (ground arith) in
        rw e (unlinked-row key repo db o s e unlinked)
  ]

  -- Deleting rows that no link leads to drops their objects from the catalog.
  pub remaining-view :
      view (record db { objects = filter q db.objects })
      ≡ drop_objects (λ key. removed q (find (has_oid key) db.objects)) (view db)
  unfolding view drop_objects
  remaining-view =
      Catalog-ext
        (λ key.
          ap entry (find-kept key q db.objects s.oids) ∙ kept-entry (find (has_oid key) db.objects))
        (λ repo key.
          ap (row_linked db.repo_objects repo) (find-kept key q db.objects s.oids)
          ∙ kept-linked repo (find (has_oid key) db.objects) (removed-linked key repo))
    where
      kept-entry :
          (row : Option Object) → entry (kept q row) ≡ (if removed q row then none else entry row)
      kept-entry none = refl
      kept-entry (some o) = ground arith

      kept-linked :
          (repo : Str) (row : Option Object)
          → (removed q row ≡ true → row_linked db.repo_objects repo row ≡ false)
          → row_linked db.repo_objects repo (kept q row) ≡ row_linked db.repo_objects repo row
      kept-linked repo none h = refl
      kept-linked repo (some o) h = ground (arith, h)
