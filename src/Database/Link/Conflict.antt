-- ===== src/Database/Link/Conflict.antt =====
-- LinkObject against a row that is verified already: the row's size and location win.
use git_lfs_server.Base.{◌≡◌, refl, ◌≢◌, true, none, some, is_some, arith}
use git_lfs_server.Base.Int.{ℤ}
use git_lfs_server.Base.Text.{Str}
use git_lfs_server.Error.{Error, Result, ok, err}
use git_lfs_server.Database.Schema.{Object, Db}
use git_lfs_server.Database.Exec.{command, sent}
use git_lfs_server.Database.Exec.Laws.{>>=-ok, command-ok, transaction-ok, transaction-err}
use git_lfs_server.Database.Statements.{find, has_oid, upsert}
use git_lfs_server.Database.Objects.{link_body, link_object}
use git_lfs_server.Database.Invariant.{IsSound}
use git_lfs_server.Database.Invariant.Rows.{find-consistent}
use git_lfs_server.Database.Invariant.Upsert.{upsert-find}
use git_lfs_server.Database.Link.Outcome.{finish-ok}

module _ (repo oid : Str) (size : ℤ) (uri : Str) (db : Db) where
  -- The row that LinkObject has when it returns, by the row that was there.
  link_object-row :
      (db' : Db) (stored : Str)
      → link_object repo oid size uri db ≡ (ok stored, db')
      → (o : Object) × (mid : Db) × (upsert oid size uri (sent (sent db)) ≡ (o, mid))
        × (o.size ≡ some size)
        × (o.object_uri ≡ some stored)
  unfolding link_object link_body
  link_object-row db' stored h =
      let (end, e, _) = transaction-ok (link_body repo oid size uri) db db' stored h in
      let (o, mid, e₁, rest) = >>=-ok (command (upsert oid size uri)) _ (sent db) end stored e in
      let (wrote, fits) = command-ok (upsert oid size uri) (sent db) mid o e₁ in
      let there = upsert-find oid size uri (sent (sent db)) mid o wrote in
      let (_, row_size, row_uri, _) =
        finish-ok repo size o mid end stored (find-consistent _ mid.objects o fits there) rest in
      (o, mid, wrote, row_size, row_uri)

  -- If the object id has a verified row, LinkObject that returns has been given that row's size,
  -- and returns that row's URI, whatever URI it was given.
  pub link_object-first_wins :
      (db' : Db) (stored : Str) (old : Object)
      → IsSound db
      → find (has_oid oid) db.objects ≡ some old
      → is_some old.verified_at ≡ true
      → link_object repo oid size uri db ≡ (ok stored, db')
      → (old.size ≡ some size) × (old.object_uri ≡ some stored)
  unfolding upsert
  link_object-first_wins db' stored old s there v h =
      let (o, mid, wrote, row_size, row_uri) = link_object-row db' stored h in
      let fits = find-consistent _ db.objects old s.check there in ground arith

  -- If the object id has no row, LinkObject that returns has stored the URI that it was given.
  pub link_object-first_writes :
      (db' : Db) (stored : Str)
      → find (has_oid oid) db.objects ≡ none
      → link_object repo oid size uri db ≡ (ok stored, db')
      → stored ≡ uri
  unfolding upsert
  link_object-first_writes db' stored missing h =
      let (o, mid, wrote, row_size, row_uri) = link_object-row db' stored h in ground arith

  -- If the object id has a verified row of another size, LinkObject fails and changes no row.
  pub link_object-conflict :
      (old : Object)
      → IsSound db
      → find (has_oid oid) db.objects ≡ some old
      → is_some old.verified_at ≡ true
      → old.size ≢ some size
      → (e : Error) × (db' : Db) × (link_object repo oid size uri db ≡ (err e, db'))
        × (db' ≡ record db { faults = db'.faults })
  unfolding link_object
  link_object-conflict old s there v other_size =
      go (link_object repo oid size uri db).0 (link_object repo oid size uri db).1 refl
    where
      go :
          (r : Result Str) (db' : Db)
          → link_object repo oid size uri db ≡ (r, db')
          → (e : Error) × (db' : Db) × (link_object repo oid size uri db ≡ (err e, db'))
            × (db' ≡ record db { faults = db'.faults })
      go (ok stored) db' h =
          absurd (other_size (link_object-first_wins db' stored old s there v h).0)
      go (err e) db' h = (e, db', h, transaction-err (link_body repo oid size uri) db db' e h)
