-- ===== src/Database/Catalog.antt =====
-- internal/database/database.go, what the package promises to its callers: a catalog of stored
-- objects and of the repositories that they are linked to, without keys, order, counts or times.
pub mod Rows
pub mod Links
pub mod Statements
pub mod Refines
pub mod Deleted
pub mod Sweeps
pub mod Taken
pub mod History
pub mod Durable
pub mod Isolation
use git_lfs_server.Base.{
  ◌≡◌, Bool, true, false, ◌&&◌, ◌||◌, Option, none, some, List, is, is_some, if◌then◌else◌,
}
use git_lfs_server.Base.Int.{ℤ, dec_ℤ}
use git_lfs_server.Base.Text.{Str, dec_str}
use git_lfs_server.Database.Schema.{Object, RepoObject, Db}
use git_lfs_server.Database.Statements.{find, has_oid, is_linked}

-- Of each object id: the size and the location that were verified, and who is linked to it.
pub record Catalog : Type 0 where
  pub object : Str → Option (ℤ × Str)
  pub linked : Str → Str → Bool

abbrev both : Option ℤ → Option Str → Option (ℤ × Str)
both (some size) (some uri) = some (size, uri)
both none u = none
both (some size) none = none

-- A row that waits for its upload is not in the catalog.
abbrev pub entry : Option Object → Option (ℤ × Str)
entry none = none
entry (some o) = if is_some o.verified_at then both o.size o.object_uri else none

abbrev pub row_linked : List RepoObject → Str → Option Object → Bool
row_linked ls repo none = false
row_linked ls repo (some o) = is_linked repo o.id ls

unfoldable pub view : Db → Catalog
view db = record {
  object = λ oid. entry (find (has_oid oid) db.objects);
  linked = λ repo oid. row_linked db.repo_objects repo (find (has_oid oid) db.objects);
}

-- The object id gets its entry, and the repository its link.
unfoldable pub put : Str → Str → ℤ × Str → Catalog → Catalog
put repo oid e c = record {
  object = λ key. if is (dec_str oid key) then some e else c.object key;
  linked = λ name key. (is (dec_str repo name) && is (dec_str oid key)) || c.linked name key;
}

-- The objects of the test leave the catalog.
unfoldable pub drop_objects : (Str → Bool) → Catalog → Catalog
drop_objects gone c = record {
  object = λ key. if gone key then none else c.object key;
  linked = c.linked;
}

-- A catalog that has lost objects that no repository is linked to, and nothing else.
pub record Forgets (c d : Catalog) : Type 0 where
  pub gone : Str → Bool
  pub unlinked : (oid repo : Str) → gone oid ≡ true → c.linked repo oid ≡ false
  pub dropped : d ≡ drop_objects gone c

-- What storing an object for a repository is to do: the first size and location win, a later
-- upload of another size is refused, and the location that counts is the one returned.
unfoldable pub store : Str → Str → ℤ → Str → Catalog → Option (Str × Catalog)
store repo oid size uri c = elim (c.object oid) [
  | none ↦ some (uri, put repo oid (size, uri) c)
  | some (old_size, old_uri) ↦
      if is (dec_ℤ old_size size) then some (old_uri, put repo oid (old_size, old_uri) c) else none
]
