-- ===== src/Database/Invariant.antt =====
-- What holds of the tables between transactions.
pub mod Rows
pub mod Links
pub mod Upsert
use git_lfs_server.Base.{
  ℕ, ◌<◌, ◌≡◌, ◌≢◌, Bool, true, false, ◌&&◌, List, [], ◌∷◌, ◌==◌, all, All, count, is_some,
}
use git_lfs_server.Base.Text.{Str}
use git_lfs_server.Database.Schema.{Object, RepoObject, Db, consistent}
use git_lfs_server.Database.Statements.{find, has_id, of_object, of_link, is_linked}

-- Keys are positive, fall along a table, newest row first, and stay under the next one.
abbrev pub Below : ℕ → List Object → Type 0
Below n [] = Unit {0}
Below n (o ∷ os) = ((0 < o.id) × (o.id < n)) × Below o.id os

-- uniqueIndex on oid
abbrev pub DistinctOids : List Object → Type 0
DistinctOids [] = Unit {0}
DistinctOids (o ∷ os) = All (λ p. p.oid ≢ o.oid) os × DistinctOids os

-- uniqueIndex on (repo_name, object_id)
abbrev pub DistinctLinks : List RepoObject → Type 0
DistinctLinks [] = Unit {0}
DistinctLinks (l ∷ ls) = (is_linked l.repo_name l.object_id ls ≡ false) × DistinctLinks ls

-- A verified row with this key is there.
unfoldable pub holds_verified : ℕ → List Object → Bool
holds_verified id [] = false
holds_verified id (o ∷ os) =
    let rest = holds_verified id os in
    elim (has_id id o && is_some o.verified_at) [ true ↦ true | false ↦ rest ]

abbrev pub Counted : List RepoObject → Object → Type 0
Counted links o = o.repo_count ≡ count (of_object o.id) links

abbrev pub LinksHold : List Object → List RepoObject → Type 0
LinksHold os ls = All (λ l. holds_verified l.object_id os ≡ true) ls

pub record IsSound (db : Db) : Type 0 where
  pub positive : 0 < db.next_object_id
  pub ids : Below db.next_object_id db.objects
  pub oids : DistinctOids db.objects
  pub check : all consistent db.objects ≡ true
  pub links : DistinctLinks db.repo_objects
  -- Every link leads to a verified row.
  pub held : LinksHold db.objects db.repo_objects
  -- repo_count is the number of links of the row.
  pub counted : All (Counted db.repo_objects) db.objects
