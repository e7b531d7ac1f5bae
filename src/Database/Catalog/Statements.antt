-- ===== src/Database/Catalog/Statements.antt =====
-- What the row that LinkObject or VerifyObject works on says of the catalog before.
use git_lfs_server.Base.{
  ◌≡◌, refl, sym, ap, ◌∙◌, true, Option, none, some, all, is_some, arith, inl, inr, ◌⊎◌,
  Option-cases, Bool-cases,
}
use git_lfs_server.Base.Int.{ℤ}
use git_lfs_server.Base.Text.{Str}
use git_lfs_server.Database.Schema.{Object, Db, consistent}
use git_lfs_server.Database.Statements.{find, has_oid, upsert, mark_verified, excluded, fill}
use git_lfs_server.Database.Invariant.Rows.{find-consistent, find-oid}
use git_lfs_server.Database.Catalog.{entry}
use git_lfs_server.Database.Catalog.Rows.{find-update_where}

-- The object was not in the catalog and gets the location, or was there as it is now.
abbrev pub WasFree : Option Object → ℤ → Str → Str → Type 0
WasFree row size uri v = ((entry row ≡ none) × (v ≡ uri)) ⊎ (entry row ≡ some (size, v))

filled-WasFree :
    (oid : Str) (size : ℤ) (uri v : Str) (db : Db) (old : Object)
    → consistent old ≡ true
    → (fill (excluded oid size uri db) old).size ≡ some size
    → (fill (excluded oid size uri db) old).object_uri ≡ some v
    → WasFree (some old) size uri v
filled-WasFree oid size uri v db old fits s u = elim (Bool-cases (is_some old.verified_at)) [
  | inl e ↦ inr (ground arith)
  | inr e ↦ inl (ground arith, ground arith)
]

pub upsert-WasFree :
    (oid : Str) (size : ℤ) (uri v : Str) (db mid : Db) (o : Object)
    → upsert oid size uri db ≡ (o, mid)
    → all consistent db.objects ≡ true
    → o.size ≡ some size
    → o.object_uri ≡ some v
    → WasFree (find (has_oid oid) db.objects) size uri v
unfolding upsert
upsert-WasFree oid size uri v db mid o h fits s u =
    elim (Option-cases (find (has_oid oid) db.objects)) [
      | inl e ↦ rw e (inl (refl, ground arith))
      | inr (old, e) ↦
          let same : fill (excluded oid size uri db) old ≡ o = ground arith in
          rw e (
            filled-WasFree oid size uri v db old (find-consistent _ db.objects old fits e)
              (ap (λ x. x.size) same ∙ s) (ap (λ x. x.object_uri) same ∙ u))
    ]

pub mark_verified-WasFree :
    (oid : Str) (size : ℤ) (uri v : Str) (db : Db) (o : Object)
    → find (has_oid oid) (mark_verified oid size uri db).1.objects ≡ some o
    → all consistent db.objects ≡ true
    → o.size ≡ some size
    → o.object_uri ≡ some v
    → WasFree (find (has_oid oid) db.objects) size uri v
unfolding mark_verified
mark_verified-WasFree oid size uri v db o h fits s u =
    let hit = sym (find-update_where (has_oid oid) _ _ (λ x. refl) db.objects) ∙ h in
    elim (Option-cases (find (has_oid oid) db.objects)) [
      | inl e ↦ absurd (cc (rw e at hit))
      | inr (old, e) ↦
          let fit = find-consistent _ db.objects old fits e in
          let named = find-oid oid db.objects old e in
          elim (Bool-cases (is_some old.verified_at)) [
            | inl w ↦ rw e (inr (ground (arith, rw e at hit)))
            | inr w ↦ rw e (inl (ground arith, ground (arith, rw e at hit)))
          ]
    ]
