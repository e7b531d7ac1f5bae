-- ===== src/Database/Link/Sound.antt =====
-- LinkObject, VerifyObject and InsertPendingObject keep the tables sound, and fail atomically.
use git_lfs_server.Base.{◌≡◌, refl, arith, inl, inr, Option-cases}
use git_lfs_server.Base.Int.{ℤ}
use git_lfs_server.Base.Text.{Str}
use git_lfs_server.Error.{ok}
use git_lfs_server.Database.Schema.{zero_object, Db}
use git_lfs_server.Database.Exec.{Exec, command, sent, transaction}
use git_lfs_server.Database.Exec.Laws.{>>=-ok, command-ok, transaction-keeps}
use git_lfs_server.Database.Statements.{find, has_oid, upsert, insert_pending}
use git_lfs_server.Database.Objects.{
  link_body, link_object, verify_body, verify_object, insert_pending_object,
}
use git_lfs_server.Database.Invariant.{IsSound}
use git_lfs_server.Database.Invariant.Rows.{find-consistent, find-holds_verified, find-eq-none}
use git_lfs_server.Database.Invariant.Links.{attach-IsSound, IsSound-faults}
use git_lfs_server.Database.Invariant.Upsert.{
  upsert-find, upsert-IsSound, mark_verified-IsSound, inserted-IsSound,
}
use git_lfs_server.Database.Link.Outcome.{finish-ok, verify_body-ok}

-- A transaction keeps the tables sound if its function does whenever it returns.
pub transaction-IsSound :
    {A : Type 0} (m : Exec A) (db : Db)
    → ((start end : Db) (a : A) → IsSound start → m start ≡ (ok a, end) → IsSound end)
    → IsSound db
    → IsSound (transaction m db).1
transaction-IsSound m db keeps s =
    transaction-keeps IsSound m db (λ d fs k. IsSound-faults {db = d} fs k) keeps s

module _ (repo oid : Str) (size : ℤ) (uri : Str) where
  link_body-IsSound :
      (db db' : Db) (stored : Str)
      → IsSound db
      → link_body repo oid size uri db ≡ (ok stored, db')
      → IsSound db'
  unfolding link_body
  link_body-IsSound db db' stored s h =
      let (o, mid, e, rest) = >>=-ok (command (upsert oid size uri)) _ db db' stored h in
      let (wrote, fits) = command-ok (upsert oid size uri) db mid o e in
      let there = upsert-find oid size uri (sent db) mid o wrote in
      let (attached, _, _, verified) =
        finish-ok repo size o mid db' stored (find-consistent _ mid.objects o fits there) rest in
      attach-IsSound repo o.id mid db' (find-holds_verified _ mid.objects o there verified)
        (upsert-IsSound oid size uri (sent db) mid o wrote fits (IsSound-faults _ s)) attached

  verify_body-IsSound :
      (db db' : Db) (stored : Str)
      → IsSound db
      → verify_body repo oid size uri db ≡ (ok stored, db')
      → IsSound db'
  verify_body-IsSound db db' stored s h =
      let (o, mid, wrote, fits, there, rest) = verify_body-ok repo oid size uri stored db db' h in
      let (attached, _, _, verified) =
        finish-ok repo size o (sent mid) db' stored (find-consistent _ mid.objects o fits there)
          rest in
      attach-IsSound repo o.id (sent mid) db' (find-holds_verified _ mid.objects o there verified)
        (IsSound-faults {db = mid} _ (
          rw wrote
            (mark_verified-IsSound oid size uri (sent db) (rw wrote at fits) (IsSound-faults _ s))))
        attached

  -- LinkObject keeps the tables sound, whatever it returns and whichever statements fail.
  pub link_object-IsSound : (db : Db) → IsSound db → IsSound (link_object repo oid size uri db).1
  unfolding link_object
  link_object-IsSound db s =
      transaction-IsSound (link_body repo oid size uri) db
        (λ start end a k h. link_body-IsSound start end a k h) s

  -- VerifyObject keeps the tables sound, whatever it returns and whichever statements fail.
  pub verify_object-IsSound :
      (db : Db) → IsSound db → IsSound (verify_object repo oid size uri db).1
  unfolding verify_object
  verify_object-IsSound db s =
      transaction-IsSound (verify_body repo oid size uri) db
        (λ start end a k h. verify_body-IsSound start end a k h) s

-- InsertPendingObject keeps the tables sound.
pub insert_pending_object-IsSound :
    (oid : Str) (db : Db) → IsSound db → IsSound (insert_pending_object oid db).1
unfolding insert_pending_object command insert_pending
insert_pending_object-IsSound oid db s = elim (Option-cases (find (has_oid oid) db.objects)) [
  | inl e ↦ ground (
    arith,
    IsSound-faults {db = db} (sent db).faults s,
    inserted-IsSound (record zero_object { id = db.next_object_id; oid = oid; created_at = db.now })
        (sent db) refl refl (find-eq-none oid db.objects e),
  )
  | inr (old, e) ↦ ground (arith, IsSound-faults {db = db} (sent db).faults s)
]
