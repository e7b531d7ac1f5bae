-- ===== src/Database/Catalog/Links.antt =====
-- The links of the catalog under the statements of LinkObject and VerifyObject.
use git_lfs_server.Base.{
  ℕ, ◌≡◌, refl, ◌∙◌, Bool, true, false, ◌&&◌, ◌||◌, some, List, [], ◌∷◌, is, arith, inl, inr,
  Option-cases,
}
use git_lfs_server.Base.Int.{ℤ}
use git_lfs_server.Base.Text.{Str, dec_str}
use git_lfs_server.Error.{ok}
use git_lfs_server.Database.Schema.{Object, RepoObject, Db}
use git_lfs_server.Database.Statements.{
  find, update_where, has_oid, is_linked, upsert, mark_verified, recount, excluded, fill,
}
use git_lfs_server.Database.Objects.{attach}
use git_lfs_server.Database.Invariant.{LinksHold, holds_verified, IsSound}
use git_lfs_server.Database.Invariant.Rows.{holds_verified_above}
use git_lfs_server.Database.Invariant.Links.{attach-ok, new_link}
use git_lfs_server.Database.Catalog.{entry, row_linked}
use git_lfs_server.Database.Catalog.Rows.{find-id}

-- A key that no verified row has is linked to nothing.
pub unheld-linked :
    (repo : Str) (id : ℕ) (os : List Object) (ls : List RepoObject)
    → LinksHold os ls
    → holds_verified id os ≡ false
    → is_linked repo id ls ≡ false
unfolding is_linked find
unheld-linked repo id os [] h k = refl
unheld-linked repo id os (l ∷ ls) h k = ground (arith, unheld-linked repo id os ls h.1)

-- An update that keeps the keys links nothing.
update-linked :
    (repo key : Str) (q : Object → Bool) (f : Object → Object) (ls : List RepoObject)
    → ((x : Object) → (f x).id ≡ x.id)
    → ((x : Object) → (f x).oid ≡ x.oid)
    → (os : List Object)
    → row_linked ls repo (find (has_oid key) (update_where q f os))
      ≡ row_linked ls repo (find (has_oid key) os)
unfolding find update_where
update-linked repo key q f ls id oid [] = refl
update-linked repo key q f ls id oid (x ∷ os) =
    ground (arith, id x, oid x, update-linked repo key q f ls id oid os)

-- An upsert links nothing.
pub upsert-linked :
    (oid : Str) (size : ℤ) (uri : Str) (db : Db) (repo key : Str)
    → IsSound db
    → row_linked
        (upsert oid size uri db).1.repo_objects
        repo
        (find (has_oid key) (upsert oid size uri db).1.objects)
      ≡ row_linked db.repo_objects repo (find (has_oid key) db.objects)
unfolding upsert find
upsert-linked oid size uri db repo key s = elim (Option-cases (find (has_oid oid) db.objects)) [
  | inl e ↦
      let new =
        unheld-linked repo db.next_object_id db.objects db.repo_objects s.held (
          holds_verified_above db.next_object_id db.next_object_id db.objects s.ids
            (omega arith)) in
      rw e (ground arith)
  | inr (old, e) ↦ rw e (
      update-linked repo key (has_oid oid) (fill (excluded oid size uri db)) db.repo_objects
        (λ x. refl) (λ x. refl) db.objects)
]

pub mark_verified-linked :
    (oid : Str) (size : ℤ) (uri : Str) (db : Db) (repo key : Str)
    → row_linked
        (mark_verified oid size uri db).1.repo_objects
        repo
        (find (has_oid key) (mark_verified oid size uri db).1.objects)
      ≡ row_linked db.repo_objects repo (find (has_oid key) db.objects)
unfolding mark_verified
mark_verified-linked oid size uri db repo key =
    update-linked repo key _ _ db.repo_objects (λ x. refl) (λ x. refl) db.objects

-- A link to the row of an object id links that object id, and no other.
new_link-linked :
    (repo name oid key : Str) (o : Object) (db : Db)
    → IsSound db
    → find (has_oid oid) db.objects ≡ some o
    → row_linked (new_link repo o.id db ∷ db.repo_objects) name (find (has_oid key) db.objects)
      ≡ (is (dec_str repo name) && is (dec_str oid key))
        || row_linked db.repo_objects name (find (has_oid key) db.objects)
unfolding is_linked find
new_link-linked repo name oid key o db s h = elim (Option-cases (find (has_oid key) db.objects)) [
  | inl k ↦ rw k (ground arith)
  | inr (x, k) ↦
      let one = find-id oid key o x db.next_object_id db.objects s.ids h k in rw k (ground arith)
]

old_link-linked :
    (repo name oid key : Str) (o : Object) (db : Db)
    → find (has_oid oid) db.objects ≡ some o
    → is_linked repo o.id db.repo_objects ≡ true
    → row_linked db.repo_objects name (find (has_oid key) db.objects)
      ≡ (is (dec_str repo name) && is (dec_str oid key))
        || row_linked db.repo_objects name (find (has_oid key) db.objects)
old_link-linked repo name oid key o db h old = elim (dec_str repo name) [
  | yes p ↦ elim (dec_str oid key) [
    | yes q ↦ rw (← p, ← q, h, old) (ground arith)
    | no q ↦ ground arith
  ]
  | no p ↦ ground arith
]

recount-entry :
    (q : Object → Bool) (n : ℕ) (key : Str) (os : List Object)
    → entry (find (has_oid key) (update_where q (λ x. record x { repo_count = n }) os))
      ≡ entry (find (has_oid key) os)
unfolding find update_where
recount-entry q n key [] = refl
recount-entry q n key (x ∷ os) = ground (arith, recount-entry q n key os)

module _ (repo oid : Str) (o : Object) (db db' : Db) (s : IsSound db)
    (h : find (has_oid oid) db.objects ≡ some o) (e : attach repo o.id db ≡ (ok tt, db')) where
  -- `attach` links the object id to the repository, and leaves the objects as they are.
  pub attach-entry :
      (key : Str) → entry (find (has_oid key) db'.objects) ≡ entry (find (has_oid key) db.objects)
  unfolding recount
  attach-entry key = elim (attach-ok repo o.id db db' e) [
    | inl (old, same) ↦ rw same refl
    | inr (new, same, fits) ↦ rw same (recount-entry _ _ key db.objects)
  ]

  pub attach-linked :
      (name key : Str)
      → row_linked db'.repo_objects name (find (has_oid key) db'.objects)
        ≡ (is (dec_str repo name) && is (dec_str oid key))
          || row_linked db.repo_objects name (find (has_oid key) db.objects)
  unfolding recount
  attach-linked name key = elim (attach-ok repo o.id db db' e) [
    | inl (old, same) ↦ rw same (old_link-linked repo name oid key o db h old)
    | inr (new, same, fits) ↦ rw same (
        update-linked name key _ _ (new_link repo o.id db ∷ db.repo_objects) (λ x. refl) (λ x. refl)
          db.objects
        ∙ new_link-linked repo name oid key o db s h)
  ]
