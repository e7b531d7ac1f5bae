-- ===== src/Database/Invariant/Links.antt =====
-- `attach`, the link and the count at the end of LinkObject and VerifyObject, keeps the tables sound.
use git_lfs_server.Base.{
  ℕ, ◌≡◌, refl, Bool, true, false, List, [], ◌∷◌, all, All, count, arith, inl, inr, ◌⊎◌,
}
use git_lfs_server.Base.Text.{Str}
use git_lfs_server.Error.{ok}
use git_lfs_server.Database.Schema.{Object, RepoObject, Db, consistent}
use git_lfs_server.Database.Exec.{◌>>=◌, command}
use git_lfs_server.Database.Statements.{
  update_where, has_id, of_object, is_linked, insert_link, insert_link_unless, recount,
}
use git_lfs_server.Database.Objects.{attach}
use git_lfs_server.Database.Invariant.{holds_verified, Counted, IsSound}
use git_lfs_server.Database.Invariant.Rows.{
  update-Below, update-holds_verified, update-LinksHold, update-DistinctOids,
}

-- The tables after `attach` has returned.
abbrev pub new_link : Str → ℕ → Db → RepoObject
new_link repo id db = record {
  id = db.next_link_id;
  repo_name = repo;
  object_id = id;
  created_at = db.now;
}

abbrev pub with_link : Str → ℕ → Db → Db
with_link repo id db = (recount id (insert_link_unless false repo id db).1).1

-- `attach` that returned found the link there, or made it and counted the links of the row again.
pub attach-ok :
    (repo : Str) (id : ℕ) (db db' : Db)
    → attach repo id db ≡ (ok tt, db')
    → ((is_linked repo id db.repo_objects ≡ true) × (db' ≡ record db { faults = db'.faults }))
      ⊎ ((is_linked repo id db.repo_objects ≡ false)
          × (db' ≡ record (with_link repo id db) { faults = db'.faults })
          × (all consistent db'.objects ≡ true))
unfolding attach insert_link recount ◌>>=◌ command
attach-ok repo id db db' h = ground arith

recounted-Counted :
    (repo : Str) (id : ℕ) (l : RepoObject) (ls : List RepoObject) (os : List Object)
    → l.object_id ≡ id
    → All (Counted ls) os
    → All
        (Counted (l ∷ ls))
        (update_where (has_id id) (λ o. record o { repo_count = count (of_object id) (l ∷ ls) }) os)
unfolding update_where count
recounted-Counted repo id l ls [] e h = tt
recounted-Counted repo id l ls (o ∷ os) e h =
    (ground arith, recounted-Counted repo id l ls os e h.1)

with_link-IsSound :
    (repo : Str) (id : ℕ) (db : Db)
    → holds_verified id db.objects ≡ true
    → is_linked repo id db.repo_objects ≡ false
    → all consistent (with_link repo id db).objects ≡ true
    → IsSound db
    → IsSound (with_link repo id db)
unfolding recount
with_link-IsSound repo id db there new fits s = record {
  positive = s.positive;
  ids = update-Below _ _ (λ o. refl) db.next_object_id db.objects s.ids;
  oids = update-DistinctOids _ _ (λ o. refl) db.objects s.oids;
  check = fits;
  links = (new, s.links);
  held = (
    update-holds_verified _ _ (λ o. refl) (λ o v. v) id db.objects there,
    update-LinksHold _ _ (λ o. refl) (λ o v. v) db.objects db.repo_objects s.held,
  );
  counted =
      recounted-Counted repo id (new_link repo id db) db.repo_objects db.objects refl s.counted;
}

-- A database that is sound stays so whatever statements are to fail.
pub IsSound-faults : {db : Db} (fs : List Bool) → IsSound db → IsSound (record db { faults = fs })
IsSound-faults fs s = record {
  positive = s.positive;
  ids = s.ids;
  oids = s.oids;
  check = s.check;
  links = s.links;
  held = s.held;
  counted = s.counted;
}

pub attach-IsSound :
    (repo : Str) (id : ℕ) (db db' : Db)
    → holds_verified id db.objects ≡ true
    → IsSound db
    → attach repo id db ≡ (ok tt, db')
    → IsSound db'
attach-IsSound repo id db db' there s h = elim (attach-ok repo id db db' h) [
  | inl (_, same) ↦ rw same (IsSound-faults db'.faults s)
  | inr (new, e, fits) ↦
      rw e (IsSound-faults db'.faults (with_link-IsSound repo id db there new (rw e at fits) s))
]
