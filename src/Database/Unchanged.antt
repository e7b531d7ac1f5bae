-- ===== src/Database/Unchanged.antt =====
-- The SELECT methods of internal/database/objects.go write nothing.
use git_lfs_server.Base.{◌≡◌, arith, List, [], ◌∷◌}
use git_lfs_server.Base.Text.{Str}
use git_lfs_server.Database.Schema.{Db}
use git_lfs_server.Database.Exec.{◌>>=◌, query}
use git_lfs_server.Database.Objects.{
  get_repo_object_by_oid, get_object_by_oid, get_objects_by_oids, get_repo_objects_by_oids,
}

-- The tables, the keys and the clock are as they were; statements may have been sent.
abbrev pub IsUnchanged : Db → Db → Type 0
IsUnchanged db db' = db' ≡ record db { faults = db'.faults }

pub get_repo_object-IsUnchanged :
    (repo oid : Str) (db : Db) → IsUnchanged db (get_repo_object_by_oid repo oid db).1
unfolding get_repo_object_by_oid ◌>>=◌ query
get_repo_object-IsUnchanged repo oid db = ground arith

pub get_object-IsUnchanged : (oid : Str) (db : Db) → IsUnchanged db (get_object_by_oid oid db).1
unfolding get_object_by_oid ◌>>=◌ query
get_object-IsUnchanged oid db = ground arith

pub get_objects-IsUnchanged :
    (oids : List Str) (db : Db) → IsUnchanged db (get_objects_by_oids oids db).1
unfolding get_objects_by_oids ◌>>=◌ query
get_objects-IsUnchanged [] db = ground arith
get_objects-IsUnchanged (oid ∷ oids) db = ground arith

pub get_repo_objects-IsUnchanged :
    (repo : Str) (oids : List Str) (db : Db)
    → IsUnchanged db (get_repo_objects_by_oids repo oids db).1
unfolding get_repo_objects_by_oids ◌>>=◌ query
get_repo_objects-IsUnchanged repo [] db = ground arith
get_repo_objects-IsUnchanged repo (oid ∷ oids) db = ground arith
