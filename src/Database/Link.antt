-- ===== src/Database/Link.antt =====
-- LinkObject and VerifyObject: what they leave in the tables, and what they keep.
pub mod Outcome
pub mod Sound
pub mod Conflict
pub mod Progress
use git_lfs_server.Base.{◌≡◌, Bool, true, some, List, is_some}
use git_lfs_server.Base.Int.{ℤ}
use git_lfs_server.Base.Text.{Str}
use git_lfs_server.Database.Schema.{Object, Db}
use git_lfs_server.Database.Statements.{find, has_oid, is_linked}

-- The object id has a verified row of this size and location, linked to the repository.
pub record IsStored (repo oid : Str) (size : ℤ) (uri : Str) (db : Db) : Type 0 where
  pub row : Object
  pub found : find (has_oid oid) db.objects ≡ some row
  pub row_size : row.size ≡ some size
  pub row_uri : row.object_uri ≡ some uri
  pub verified : is_some row.verified_at ≡ true
  pub linked : is_linked repo row.id db.repo_objects ≡ true

pub IsStored-faults :
    (repo oid : Str) (size : ℤ) (uri : Str) (db : Db) (fs : List Bool)
    → IsStored repo oid size uri db
    → IsStored repo oid size uri (record db { faults = fs })
IsStored-faults repo oid size uri db fs s = record {
  row = s.row;
  found = s.found;
  row_size = s.row_size;
  row_uri = s.row_uri;
  verified = s.verified;
  linked = s.linked;
}
