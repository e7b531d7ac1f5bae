-- ===== src/Database/Catalog/Refines.antt =====
-- LinkObject, VerifyObject and InsertPendingObject, as the catalog sees them.
use git_lfs_server.Base.{
  Option-cases, subst, ◌≡◌, refl, sym, ap, ◌∙◌, ◌≢◌, true, ◌&&◌, ◌||◌, Option, some, is, is_some,
  arith, inl, inr, fun_ext, if◌then◌else◌,
}
use git_lfs_server.Base.Int.{ℤ}
use git_lfs_server.Base.Text.{Str, dec_str}
use git_lfs_server.Error.{Error, Result, ok, err}
use git_lfs_server.Database.Schema.{Object, Db}
use git_lfs_server.Database.Exec.{Exec, command, sent, transaction}
use git_lfs_server.Database.Exec.Laws.{>>=-ok, command-ok, transaction-ok, transaction-err}
use git_lfs_server.Database.Statements.{find, has_oid, upsert, insert_pending}
use git_lfs_server.Database.Objects.{
  attach, link_body, link_object, verify_body, verify_object, insert_pending_object,
}
use git_lfs_server.Database.Invariant.{IsSound}
use git_lfs_server.Database.Invariant.Rows.{find-consistent, holds_verified_above}
use git_lfs_server.Database.Invariant.Links.{IsSound-faults}
use git_lfs_server.Database.Invariant.Upsert.{upsert-find, upsert-IsSound, mark_verified-IsSound}
use git_lfs_server.Database.Link.Outcome.{finish-ok, verify_body-ok}
use git_lfs_server.Database.Catalog.{Catalog, entry, row_linked, view, put, store}
use git_lfs_server.Database.Catalog.Links.{
  attach-entry, attach-linked, upsert-linked, mark_verified-linked, unheld-linked,
}
use git_lfs_server.Database.Catalog.Rows.{upsert-other, mark_verified-other}
use git_lfs_server.Database.Catalog.Statements.{WasFree, upsert-WasFree, mark_verified-WasFree}

pub Catalog-ext :
    {c d : Catalog}
    → ((oid : Str) → c.object oid ≡ d.object oid)
    → ((repo oid : Str) → c.linked repo oid ≡ d.linked repo oid)
    → c ≡ d
Catalog-ext h k =
    λ i. record { object = fun_ext h i; linked = fun_ext (λ repo. fun_ext (k repo)) i }

store-eq :
    (repo oid : Str) (size : ℤ) (uri v : Str) (db : Db)
    → WasFree (find (has_oid oid) db.objects) size uri v
    → store repo oid size uri (view db) ≡ some (v, put repo oid (size, v) (view db))
unfolding store view
store-eq repo oid size uri v db (inl (e, same)) = ground arith
store-eq repo oid size uri v db (inr e) = ground arith

-- What both transactions come to once the row is at hand: every other row is as before.
attached-view :
    (repo oid : Str) (size : ℤ) (v : Str) (o : Object) (db mid db' : Db)
    → IsSound mid
    → find (has_oid oid) mid.objects ≡ some o
    → o.size ≡ some size
    → o.object_uri ≡ some v
    → is_some o.verified_at ≡ true
    → ((key : Str) → oid ≢ key → find (has_oid key) mid.objects ≡ find (has_oid key) db.objects)
    → ((name key : Str)
        → row_linked mid.repo_objects name (find (has_oid key) mid.objects)
          ≡ row_linked db.repo_objects name (find (has_oid key) db.objects))
    → attach repo o.id mid ≡ (ok tt, db')
    → view db' ≡ put repo oid (size, v) (view db)
unfolding view put
attached-view repo oid size v o db mid db' s there row_size row_uri verified others links e =
    Catalog-ext (λ key. attach-entry repo oid o mid db' s there e key ∙ object key)
      (λ name key.
        attach-linked repo oid o mid db' s there e name key
        ∙ ap (λ b. (is (dec_str repo name) && is (dec_str oid key)) || b) (links name key))
  where
    object :
        (key : Str)
        → entry (find (has_oid key) mid.objects)
          ≡ (if is (dec_str oid key) then some (size, v) else entry (find (has_oid key) db.objects))
    object key = elim (dec_str oid key) [
      | yes p ↦ rw (← p, there) (ground arith)
      | no p ↦ let same = others key p in ground arith
    ]

-- The answer of a transaction and the catalog after it, against the specification.
abbrev pub Implements : Option (Str × Catalog) → Catalog → Result Str × Db → Type 0
Implements spec c (ok v, db') = spec ≡ some (v, view db')
Implements spec c (err e, db') = view db' ≡ c

pub transaction-view-err :
    {A : Type 0} (m : Exec A) (db db' : Db) (e : Error)
    → transaction m db ≡ (err e, db')
    → view db' ≡ view db
unfolding view
transaction-view-err m db db' e h = rw (transaction-err m db db' e h) refl

module _ (repo oid : Str) (size : ℤ) (uri : Str) (db : Db) (s : IsSound db) where
  pub link_object-view :
      (v : Str) (db' : Db)
      → link_object repo oid size uri db ≡ (ok v, db')
      → store repo oid size uri (view db) ≡ some (v, view db')
  unfolding link_object link_body view
  link_object-view v db' h =
      let (end, e, last) = transaction-ok (link_body repo oid size uri) db db' v h in
      let (o, mid, e₁, h₁) = >>=-ok (command (upsert oid size uri)) _ (sent db) end v e in
      let (wrote, fits) = command-ok (upsert oid size uri) (sent db) mid o e₁ in
      let there = upsert-find oid size uri (sent (sent db)) mid o wrote in
      let (attached, row_size, row_uri, verified) =
        finish-ok repo size o mid end v (find-consistent _ mid.objects o fits there) h₁ in
      let same : (upsert oid size uri (sent (sent db))).1 ≡ mid = ap (λ p. p.1) wrote in
      let sound =
        upsert-IsSound oid size uri (sent (sent db)) mid o wrote fits
          (IsSound-faults {db = db} _ s) in
      let views =
        attached-view repo oid size v o db mid end sound there row_size row_uri verified
          (λ key n.
            subst (λ m. find (has_oid key) m.objects ≡ find (has_oid key) db.objects) same
              (upsert-other oid size uri (sent (sent db)) key n))
          (λ name key.
            subst
              (λ m.
                row_linked m.repo_objects name (find (has_oid key) m.objects)
                ≡ row_linked db.repo_objects name (find (has_oid key) db.objects))
              same
              (upsert-linked oid size uri (sent (sent db)) name key (IsSound-faults {db = db} _ s)))
          attached in
      store-eq repo oid size uri v db
        (upsert-WasFree oid size uri v (sent (sent db)) mid o wrote s.check row_size row_uri)
      ∙ ap (λ c. some (v, c)) (sym views ∙ ap view (sym last))

  -- LinkObject implements the catalog's `store` on sound tables: if it returns, then with the
  -- location that `store` returns and with the catalog that `store` makes; if it fails, then the
  -- catalog is as before.
  pub link_object-refines :
      Implements (store repo oid size uri (view db)) (view db) (link_object repo oid size uri db)
  unfolding link_object
  link_object-refines = go _ _ refl
    where
      go :
          (r : Result Str) (db' : Db)
          → link_object repo oid size uri db ≡ (r, db')
          → Implements (store repo oid size uri (view db)) (view db) (r, db')
      go (ok v) db' h = link_object-view v db' h
      go (err e) db' h = transaction-view-err (link_body repo oid size uri) db db' e h

  verify_object-view :
      (v : Str) (db' : Db)
      → verify_object repo oid size uri db ≡ (ok v, db')
      → store repo oid size uri (view db) ≡ some (v, view db')
  unfolding verify_object view
  verify_object-view v db' h =
      let (end, e, last) = transaction-ok (verify_body repo oid size uri) db db' v h in
      let (o, mid, wrote, fits, there, rest) = verify_body-ok repo oid size uri v (sent db) end e in
      let (attached, row_size, row_uri, verified) =
        finish-ok repo size o (sent mid) end v (find-consistent _ mid.objects o fits there) rest in
      let sound : IsSound mid = rw wrote (
        mark_verified-IsSound oid size uri (sent (sent db)) (rw wrote at fits)
          (IsSound-faults {db = db} _ s)) in
      let views =
        attached-view repo oid size v o db (sent mid) end (IsSound-faults {db = mid} _ sound) there
          row_size row_uri verified
          (λ key n. rw wrote (mark_verified-other oid size uri (sent (sent db)) key n))
          (λ name key. rw wrote (mark_verified-linked oid size uri (sent (sent db)) name key))
          attached in
      store-eq repo oid size uri v db (
        mark_verified-WasFree oid size uri v (sent (sent db)) o (rw wrote at there) s.check row_size
          row_uri)
      ∙ ap (λ c. some (v, c)) (sym views ∙ ap view (sym last))

  -- VerifyObject implements the catalog's `store` on sound tables: if it returns, then with the
  -- location that `store` returns and with the catalog that `store` makes; if it fails, then the
  -- catalog is as before.
  pub verify_object-refines :
      Implements (store repo oid size uri (view db)) (view db) (verify_object repo oid size uri db)
  unfolding verify_object
  verify_object-refines = go _ _ refl
    where
      go :
          (r : Result Str) (db' : Db)
          → verify_object repo oid size uri db ≡ (r, db')
          → Implements (store repo oid size uri (view db)) (view db) (r, db')
      go (ok v) db' h = verify_object-view v db' h
      go (err e) db' h = transaction-view-err (verify_body repo oid size uri) db db' e h

-- InsertPendingObject leaves the catalog of sound tables as it is, whatever it returns.
pub insert_pending_object-refines :
    (oid : Str) (db : Db) → IsSound db → view (insert_pending_object oid db).1 ≡ view db
unfolding insert_pending_object command insert_pending view find
insert_pending_object-refines oid db s = elim (Option-cases (find (has_oid oid) db.objects)) [
  | inl e ↦
      Catalog-ext (λ key. ground arith)
        (λ name key.
          let new = unheld-linked name db.next_object_id db.objects db.repo_objects s.held (
            holds_verified_above db.next_object_id db.next_object_id db.objects s.ids
              (omega arith)) in
          ground arith)
  | inr (old, e) ↦ Catalog-ext (λ key. ground arith) (λ name key. ground arith)
]
