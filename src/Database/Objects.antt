-- ===== src/Database/Objects.antt =====
-- internal/database/objects.go: the methods of DB.
use git_lfs_server.Base.{
  ℕ, zero, suc, Bool, Option, none, some, List, [], ◌∷◌, map, ◌==◌, ltb, is, if◌then◌else◌,
}
use git_lfs_server.Base.Int.{ℤ, negsuc, dec_ℤ}
use git_lfs_server.Base.Text.{Str, dec_str}
use git_lfs_server.Error.{object_not_found, other}
use git_lfs_server.Database.Schema.{Object}
use git_lfs_server.Database.Exec.{Exec, pure, raise, ◌>>=◌, ◌>>◌, query, command, transaction}
use git_lfs_server.Database.Statements.{
  select_by_oid, select_repo_object, select_verified, select_repo_objects, upsert, insert_link,
  recount, insert_pending, mark_verified, select_orphans, select_unreferenced, delete_ids,
}

-- ptrx.Deref
unfoldable pub deref {ℓ} : {A : Type ℓ} → Option A → A → A
deref none d = d
deref (some a) d = a

-- `if object.ID == 0 { return ErrObjectNotFound }`
abbrev pub found : Object → Exec Object
found o = if o.id == 0 then raise object_not_found else pure o

unfoldable pub get_repo_object_by_oid : Str → Str → Exec Object
get_repo_object_by_oid repo oid = do object ← query (select_repo_object repo oid); found object

unfoldable pub get_object_by_oid : Str → Exec Object
get_object_by_oid oid = do object ← query (select_by_oid oid); found object

-- The link and the count at the end of LinkObject and of VerifyObject.
unfoldable pub attach : Str → ℕ → Exec (Unit {0})
attach repo id = do
  affected ← command (insert_link repo id)
  if ltb 0 affected then command (recount id) else pure tt

-- The checks of the stored row in LinkObject and in VerifyObject.
unfoldable pub stored_uri : ℤ → Object → Exec Str
stored_uri size object =
    if is (dec_ℤ (deref object.size (negsuc 0)) size)
    then (if is (dec_str (deref object.object_uri []) [])
        then raise (other "no object_uri")
        else pure (deref object.object_uri []))
    else raise (other "stored with another size")

unfoldable pub link_body : Str → Str → ℤ → Str → Exec Str
link_body repo oid size uri = do
  object ← command (upsert oid size uri)
  stored ← stored_uri size object
  attach repo object.id
  pure stored

unfoldable pub link_object : Str → Str → ℤ → Str → Exec Str
link_object repo oid size uri = transaction (link_body repo oid size uri)

unfoldable pub insert_pending_object : Str → Exec (Unit {0})
insert_pending_object oid = command (insert_pending oid)

unfoldable pub verify_body : Str → Str → ℤ → Str → Exec Str
verify_body repo oid size uri = do
  command (mark_verified oid size uri)
  reloaded ← query (select_by_oid oid)
  object ← found reloaded
  stored ← stored_uri size object
  attach repo object.id
  pure stored

unfoldable pub verify_object : Str → Str → ℤ → Str → Exec Str
verify_object repo oid size uri = transaction (verify_body repo oid size uri)

-- The loop `out[r.OID] = r` over the rows: a later row replaces an earlier one of its key.
abbrev pub ObjectMap : Type 0
ObjectMap = Str → Option Object

unfoldable pub by_oid : List Object → ObjectMap
by_oid [] key = none
by_oid (r ∷ rows) key = elim (by_oid rows key) [
  | some later ↦ some later
  | none ↦ if is (dec_str r.oid key) then some r else none
]

unfoldable pub get_objects_by_oids : List Str → Exec ObjectMap
get_objects_by_oids [] = pure (λ key. none)
get_objects_by_oids (oid ∷ oids) = do
  rows ← query (select_verified (oid ∷ oids))
  pure (by_oid rows)

unfoldable pub get_repo_objects_by_oids : Str → List Str → Exec ObjectMap
get_repo_objects_by_oids repo [] = pure (λ key. none)
get_repo_objects_by_oids repo (oid ∷ oids) = do
  rows ← query (select_repo_objects repo (oid ∷ oids))
  pure (by_oid rows)

-- `if len(rows) == 0 { return nil }`, and the DELETE otherwise
unfoldable pub delete_rows : List Object → Exec (List Object)
delete_rows [] = pure []
delete_rows (r ∷ rows) = do command (delete_ids (map (λ o. o.id) (r ∷ rows))); pure (r ∷ rows)

unfoldable pub sweep_orphan_objects : (Object → Bool) → ℕ → ℕ → Exec (List Object)
sweep_orphan_objects locked age zero = pure []
sweep_orphan_objects locked age (suc limit) =
    transaction (do rows ← query (select_orphans locked age (suc limit)); delete_rows rows)

unfoldable pub sweep_unreferenced_objects : (Object → Bool) → ℕ → Exec (List Object)
sweep_unreferenced_objects locked zero = pure []
sweep_unreferenced_objects locked (suc limit) =
    transaction (do rows ← query (select_unreferenced locked (suc limit)); delete_rows rows)
