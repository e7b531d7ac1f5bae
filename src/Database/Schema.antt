-- ===== src/Database/Schema.antt =====
-- internal/database/database.go, objects.go and repo_objects.go: the rows of the two tables and
-- what the database keeps besides them. Times are microseconds; `now` is what now() returns.
use git_lfs_server.Base.{ℕ, Bool, ◌&&◌, ◌||◌, not, Option, none, List, [], is_some}
use git_lfs_server.Base.Int.{ℤ}
use git_lfs_server.Base.Text.{Str}

pub record Object : Type 0 where
  pub id : ℕ
  pub oid : Str
  pub size : Option ℤ
  pub object_uri : Option Str
  pub repo_count : ℕ
  pub created_at : ℕ
  pub verified_at : Option ℕ

-- What Scan leaves in the variable when no row matches.
abbrev pub zero_object : Object
zero_object = record {
  id = 0;
  oid = [];
  size = none;
  object_uri = none;
  repo_count = 0;
  created_at = 0;
  verified_at = none;
}

pub record RepoObject : Type 0 where
  pub id : ℕ
  pub repo_name : Str
  pub object_id : ℕ
  pub created_at : ℕ

-- The newest row of a table stands first. A key is one more than every key given out before, from
-- 1 on. `faults` says of each coming statement whether it fails, as on a lost connection.
pub record Db : Type 0 where
  pub objects : List Object
  pub repo_objects : List RepoObject
  pub next_object_id : ℕ
  pub next_link_id : ℕ
  pub now : ℕ
  pub faults : List Bool

-- The tables after the migration.
abbrev pub fresh : ℕ → List Bool → Db
fresh now faults = record {
  objects = [];
  repo_objects = [];
  next_object_id = 1;
  next_link_id = 1;
  now = now;
  faults = faults;
}

-- The constraint check_verified_consistency.
abbrev pub consistent : Object → Bool
consistent o =
    (not (is_some o.verified_at) && not (is_some o.size) && not (is_some o.object_uri))
    || (is_some o.verified_at && is_some o.size && is_some o.object_uri)
