-- ===== src/Database/Link/Outcome.antt =====
-- The tables after LinkObject or VerifyObject has returned.
use git_lfs_server.Base.{
  ℕ, ◌≡◌, refl, sym, ap, true, Option, none, some, List, ◌∷◌, all, count, is_some, arith, inl, inr,
}
use git_lfs_server.Base.Int.{ℤ}
use git_lfs_server.Base.Text.{Str}
use git_lfs_server.Error.{ok}
use git_lfs_server.Database.Schema.{Object, RepoObject, Db, consistent}
use git_lfs_server.Database.Exec.{◌>>=◌, ◌>>◌, command, query, pure, sent}
use git_lfs_server.Database.Exec.Laws.{>>=-ok, command-ok, query-ok, transaction-ok, pure-ok}
use git_lfs_server.Database.Statements.{
  find, has_oid, has_id, of_object, is_linked, recount, upsert, mark_verified, select_by_oid, scan,
}
use git_lfs_server.Database.Objects.{
  stored_uri, attach, link_body, link_object, verify_body, verify_object, found,
}
use git_lfs_server.Database.Invariant.Rows.{find-consistent}
use git_lfs_server.Database.Invariant.Links.{with_link, attach-ok}
use git_lfs_server.Database.Invariant.Upsert.{find-update, upsert-find, stored_uri-ok}
use git_lfs_server.Database.Link.{IsStored}

pub found-ok :
    (r : Option Object) (db db' : Db) (o : Object)
    → found (scan r) db ≡ (ok o, db')
    → (r ≡ some o) × (db' ≡ db)
found-ok none db db' o h = cc
found-ok (some x) db db' o h = ground arith

-- The row that VerifyObject works on, and what is left of its transaction.
pub verify_body-ok :
    (repo oid : Str) (size : ℤ) (uri stored : Str) (db db' : Db)
    → verify_body repo oid size uri db ≡ (ok stored, db')
    → (o : Object) × (mid : Db) × (mid ≡ (mark_verified oid size uri (sent db)).1)
      × (all consistent mid.objects ≡ true)
      × (find (has_oid oid) mid.objects ≡ some o)
      × ((do s ← stored_uri size o; attach repo o.id; pure s) (sent mid) ≡ (ok stored, db'))
unfolding verify_body select_by_oid
verify_body-ok repo oid size uri stored db db' h =
    let (_, mid, e₁, h₁) = >>=-ok (command (mark_verified oid size uri)) _ db db' stored h in
    let (wrote, fits) = command-ok (mark_verified oid size uri) db mid _ e₁ in
    let (r, db₂, e₂, h₂) = >>=-ok (query (select_by_oid oid)) _ mid db' stored h₁ in
    let (same, next) = query-ok (select_by_oid oid) mid db₂ r e₂ in
    let (o, db₃, e₃, h₃) = >>=-ok (found r) _ db₂ db' stored h₂ in
    let (there, last) = found-ok (find (has_oid oid) mid.objects) db₂ db₃ o (rw same at e₃) in
    (o, mid, sym (ap (λ p. p.1) wrote), fits, there, rw (last, next) at h₃)

-- The end of both transactions: from the row that they have, to the URI that they return.
pub finish-ok :
    (repo : Str) (size : ℤ) (o : Object) (db db' : Db) (uri : Str)
    → consistent o ≡ true
    → (do stored ← stored_uri size o; attach repo o.id; pure stored) db ≡ (ok uri, db')
    → (attach repo o.id db ≡ (ok tt, db'))
      × (o.size ≡ some size)
      × (o.object_uri ≡ some uri)
      × (is_some o.verified_at ≡ true)
finish-ok repo size o db db' uri fits h =
    let (stored, db₁, e₁, h₁) = >>=-ok (stored_uri size o) _ db db' uri h in
    let (_, db₂, e₂, h₂) = >>=-ok (attach repo o.id) _ db₁ db' uri h₁ in
    let (same, last) = pure-ok stored uri db₂ db' h₂ in
    let (row_size, row_uri, verified, _, mid) = stored_uri-ok size o db db₁ stored e₁ fits in
    (rw (← mid, last) e₂, row_size, rw same row_uri, verified)

module _ (repo oid : Str) where
  -- The row that is about to be attached.
  record IsReady (size : ℤ) (uri : Str) (o : Object) (db : Db) : Type 0 where
    found : find (has_oid oid) db.objects ≡ some o
    row_size : o.size ≡ some size
    row_uri : o.object_uri ≡ some uri
    verified : is_some o.verified_at ≡ true

  is_linked-cons :
      (id : ℕ) (l : RepoObject) (ls : List RepoObject)
      → l.repo_name ≡ repo
      → l.object_id ≡ id
      → is_linked repo id (l ∷ ls) ≡ true
  unfolding is_linked find
  is_linked-cons id l ls r e = ground arith

  abbrev recounted : Object → Db → Object
  recounted o db = record o {
    repo_count = count (of_object o.id) (with_link repo o.id db).repo_objects;
  }

  with_link-find :
      (o : Object) (db : Db)
      → find (has_oid oid) db.objects ≡ some o
      → find (has_oid oid) (with_link repo o.id db).objects ≡ some (recounted o db)
  unfolding recount
  with_link-find o db h = ground (
    arith,
    find-update (has_oid oid) (has_id o.id)
        (λ x. record x {
          repo_count = count (of_object o.id) (with_link repo o.id db).repo_objects;
        })
        db.objects o (λ x. refl) h,
  )

  with_link-linked :
      (o : Object) (db : Db) → is_linked repo o.id (with_link repo o.id db).repo_objects ≡ true
  unfolding recount
  with_link-linked o db = is_linked-cons o.id _ db.repo_objects refl refl

  attach-IsStored :
      (size : ℤ) (uri : Str) (o : Object) (db db' : Db)
      → IsReady size uri o db
      → attach repo o.id db ≡ (ok tt, db')
      → IsStored repo oid size uri db'
  attach-IsStored size uri o db db' r h = elim (attach-ok repo o.id db db' h) [
    | inl (old, same) ↦ record {
      row = o;
      found = rw same r.found;
      row_size = r.row_size;
      row_uri = r.row_uri;
      verified = r.verified;
      linked = rw same old;
    }
    | inr (new, e, fits) ↦ record {
      row = recounted o db;
      found = rw e (with_link-find o db r.found);
      row_size = r.row_size;
      row_uri = r.row_uri;
      verified = r.verified;
      linked = rw e (with_link-linked o db);
    }
  ]

  IsStored-sent :
      {size : ℤ} {uri : Str} {db : Db}
      → IsStored repo oid size uri db
      → IsStored repo oid size uri (sent db)
  IsStored-sent s = record {
    row = s.row;
    found = s.found;
    row_size = s.row_size;
    row_uri = s.row_uri;
    verified = s.verified;
    linked = s.linked;
  }

  -- LinkObject that returns a URI leaves the object id with a verified row of the given size, at
  -- that URI, linked to the repository.
  pub link_object-IsStored :
      (size : ℤ) (uri stored : Str) (db db' : Db)
      → link_object repo oid size uri db ≡ (ok stored, db')
      → IsStored repo oid size stored db'
  unfolding link_object link_body
  link_object-IsStored size uri stored db db' h =
      let (end, e, last) = transaction-ok (link_body repo oid size uri) db db' stored h in
      let (o, mid, e₁, h₁) = >>=-ok (command (upsert oid size uri)) _ (sent db) end stored e in
      let (wrote, fits) = command-ok (upsert oid size uri) (sent db) mid o e₁ in
      let there = upsert-find oid size uri (sent (sent db)) mid o wrote in
      let (attached, row_size, row_uri, verified) =
        finish-ok repo size o mid end stored (find-consistent _ mid.objects o fits there) h₁ in
      rw last (
        IsStored-sent (
          attach-IsStored size stored o mid end
            (record { found = there; row_size = row_size; row_uri = row_uri; verified = verified })
            attached))

  -- VerifyObject that returns a URI leaves the object id with a verified row of the given size, at
  -- that URI, linked to the repository.
  pub verify_object-IsStored :
      (size : ℤ) (uri stored : Str) (db db' : Db)
      → verify_object repo oid size uri db ≡ (ok stored, db')
      → IsStored repo oid size stored db'
  unfolding verify_object
  verify_object-IsStored size uri stored db db' h =
      let (end, e, last) = transaction-ok (verify_body repo oid size uri) db db' stored h in
      let (o, mid, _, fits, there, rest) =
        verify_body-ok repo oid size uri stored (sent db) end e in
      let (attached, row_size, row_uri, verified) =
        finish-ok repo size o (sent mid) end stored (find-consistent _ mid.objects o fits there)
          rest in
      rw last (
        IsStored-sent (
          attach-IsStored size stored o (sent mid) end
            (record { found = there; row_size = row_size; row_uri = row_uri; verified = verified })
            attached))
