-- ===== src/Database/Reads.antt =====
-- What the SELECT methods return, and that they find what LinkObject and VerifyObject have stored.
use git_lfs_server.Base.{
  ℕ, ◌<◌, ◌≡◌, refl, ap, subst, ◌≢◌, Bool, true, false, ◌&&◌, Option, none, some, List, [], ◌∷◌,
  All, is_some, arith, filter, if◌then◌else◌,
}
use git_lfs_server.Base.Int.{ℤ}
use git_lfs_server.Base.Text.{Str, dec_str}
use git_lfs_server.Error.{ok}
use git_lfs_server.Database.Schema.{Object, Db}
use git_lfs_server.Database.Exec.{◌>>=◌, query, sent, first_fault}
use git_lfs_server.Database.Exec.Laws.{>>=-ok, query-ok, pure-ok}
use git_lfs_server.Database.Statements.{
  find, has_oid, in_repo, is_linked, select_repo_object, any_oid, select_verified,
  select_repo_objects,
}
use git_lfs_server.Database.Objects.{
  get_repo_object_by_oid, link_object, verify_object, by_oid, get_objects_by_oids,
  get_repo_objects_by_oids,
}
use git_lfs_server.Database.Invariant.{IsSound, Below, DistinctOids}
use git_lfs_server.Database.Invariant.Rows.{find-consistent}
use git_lfs_server.Database.Link.{IsStored}
use git_lfs_server.Database.Link.Outcome.{found-ok, link_object-IsStored, verify_object-IsStored}
use git_lfs_server.Database.Link.Sound.{link_object-IsSound, verify_object-IsSound}

pub find-test :
    (p : Object → Bool) (os : List Object) (o : Object) → find p os ≡ some o → p o ≡ true
unfolding find
find-test p [] o h = cc
find-test p (x ∷ os) o h = ground (arith, find-test p os o)

find-and :
    (p q : Object → Bool) (os : List Object) (o : Object)
    → find p os ≡ some o
    → q o ≡ true
    → find (λ x. p x && q x) os ≡ some o
unfolding find
find-and p q [] o h k = cc
find-and p q (x ∷ os) o h k = ground (arith, find-and p q os o)

find-positive :
    (p : Object → Bool) (n : ℕ) (os : List Object) (o : Object)
    → Below n os
    → find p os ≡ some o
    → 0 < o.id
unfolding find
find-positive p n [] o b h = cc
find-positive p n (x ∷ os) o b h = ground (arith, find-positive p x.id os o b.1)

-- GetRepoObjectByOID returns only a verified row of the object id that is linked to the repository,
-- and in sound tables the size and the location of that row are there.
pub get_repo_object-is_verified :
    (repo oid : Str) (db db' : Db) (o : Object)
    → IsSound db
    → get_repo_object_by_oid repo oid db ≡ (ok o, db')
    → (o.oid ≡ oid)
      × (is_linked repo o.id db.repo_objects ≡ true)
      × (is_some o.verified_at ≡ true)
      × (is_some o.size ≡ true)
      × (is_some o.object_uri ≡ true)
unfolding get_repo_object_by_oid select_repo_object
get_repo_object-is_verified repo oid db db' o s h =
    let (r, mid, e, rest) = >>=-ok (query (select_repo_object repo oid)) _ db db' o h in
    let (same, _) = query-ok (select_repo_object repo oid) db mid r e in
    let (there, _) = found-ok _ mid db' o (rw same at rest) in
    let hit = find-test _ db.objects o there in
    let fits = find-consistent _ db.objects o s.check there in ground arith

-- A read sends one statement and writes nothing.
pub get_repo_object-IsStored :
    (repo oid : Str) (size : ℤ) (uri : Str) (db : Db)
    → IsSound db
    → first_fault db.faults ≡ false
    → (s : IsStored repo oid size uri db) → get_repo_object_by_oid repo oid db ≡ (ok s.row, sent db)
unfolding get_repo_object_by_oid select_repo_object ◌>>=◌ query
get_repo_object-IsStored repo oid size uri db sound up s =
    let there : find (λ x. has_oid oid x && in_repo repo db.repo_objects x) db.objects
        ≡ some s.row =
      find-and (has_oid oid) (in_repo repo db.repo_objects) db.objects s.row s.found
        (rw (s.linked, s.verified)) in
    let key = find-positive _ db.next_object_id db.objects s.row sound.ids s.found in
    rw (up, there) (ground arith)

-- After LinkObject has returned a URI, GetRepoObjectByOID returns a row of the given size at that
-- URI, if its own statement does not fail.
pub get_repo_object-link_object :
    (repo oid : Str) (size : ℤ) (uri stored : Str) (db db' : Db)
    → IsSound db
    → link_object repo oid size uri db ≡ (ok stored, db')
    → first_fault db'.faults ≡ false
    → (o : Object) × (get_repo_object_by_oid repo oid db' ≡ (ok o, sent db'))
      × (o.size ≡ some size)
      × (o.object_uri ≡ some stored)
get_repo_object-link_object repo oid size uri stored db db' sound h up =
    let s = link_object-IsStored repo oid size uri stored db db' h in
    let after : IsSound db' =
      subst IsSound (ap (λ r. r.1) h) (link_object-IsSound repo oid size uri db sound) in
    (s.row, get_repo_object-IsStored repo oid size stored db' after up s, s.row_size, s.row_uri)

-- After VerifyObject has returned a URI, GetRepoObjectByOID returns a row of the given size at that
-- URI, if its own statement does not fail.
pub get_repo_object-verify_object :
    (repo oid : Str) (size : ℤ) (uri stored : Str) (db db' : Db)
    → IsSound db
    → verify_object repo oid size uri db ≡ (ok stored, db')
    → first_fault db'.faults ≡ false
    → (o : Object) × (get_repo_object_by_oid repo oid db' ≡ (ok o, sent db'))
      × (o.size ≡ some size)
      × (o.object_uri ≡ some stored)
get_repo_object-verify_object repo oid size uri stored db db' sound h up =
    let s = verify_object-IsStored repo oid size uri stored db db' h in
    let after : IsSound db' =
      subst IsSound (ap (λ r. r.1) h) (verify_object-IsSound repo oid size uri db sound) in
    (s.row, get_repo_object-IsStored repo oid size stored db' after up s, s.row_size, s.row_uri)

abbrev pub kept : (Object → Bool) → Option Object → Option Object
kept p none = none
kept p (some o) = if p o then some o else none

by_oid-missing :
    (p : Object → Bool) (key : Str) (os : List Object)
    → All (λ q. q.oid ≢ key) os
    → by_oid (filter p os) key ≡ none
unfolding by_oid filter
by_oid-missing p key [] a = refl
by_oid-missing p key (o ∷ os) a = ground (arith, by_oid-missing p key os a.1)

-- Where the texts are distinct, the map of the rows that pass has the one row of a key, if it passes.
by_oid-filter :
    (p : Object → Bool) (key : Str) (os : List Object)
    → DistinctOids os
    → by_oid (filter p os) key ≡ kept p (find (has_oid key) os)
unfolding by_oid filter find
by_oid-filter p key [] d = refl
by_oid-filter p key (o ∷ os) d = elim (dec_str o.oid key) [
  | yes e ↦ ground (arith, by_oid-missing p key os (subst (λ k. All (λ q. q.oid ≢ k) os) e d.0))
  | no ne ↦ ground (arith, by_oid-filter p key os d.1)
]

-- GetObjectsByOIDs, when it returns, maps a key to the row of that object id exactly when the key
-- was asked for and the row is verified.
pub get_objects_by_oids-lookup :
    (oids : List Str) (db db' : Db) (m : Str → Option Object) (key : Str)
    → IsSound db
    → get_objects_by_oids oids db ≡ (ok m, db')
    → m key ≡ kept (λ o. any_oid oids o && is_some o.verified_at) (find (has_oid key) db.objects)
unfolding get_objects_by_oids select_verified
get_objects_by_oids-lookup [] db db' m key s h = ground arith
get_objects_by_oids-lookup (oid ∷ oids) db db' m key s h =
    let (rows, mid, e, rest) = >>=-ok (query (select_verified (oid ∷ oids))) _ db db' m h in
    let (same, _) = query-ok (select_verified (oid ∷ oids)) db mid rows e in
    let (built, _) = pure-ok (by_oid rows) m mid db' rest in
    rw (built, same) (by_oid-filter _ key db.objects s.oids)

-- GetRepoObjectsByOIDs, when it returns, maps a key to the row of that object id exactly when the
-- key was asked for and the row is verified and linked to the repository.
pub get_repo_objects_by_oids-lookup :
    (repo : Str) (oids : List Str) (db db' : Db) (m : Str → Option Object) (key : Str)
    → IsSound db
    → get_repo_objects_by_oids repo oids db ≡ (ok m, db')
    → m key
      ≡ kept (λ o. any_oid oids o && in_repo repo db.repo_objects o) (find (has_oid key) db.objects)
unfolding get_repo_objects_by_oids select_repo_objects
get_repo_objects_by_oids-lookup repo [] db db' m key s h = ground arith
get_repo_objects_by_oids-lookup repo (oid ∷ oids) db db' m key s h =
    let (rows, mid, e, rest) =
      >>=-ok (query (select_repo_objects repo (oid ∷ oids))) _ db db' m h in
    let (same, _) = query-ok (select_repo_objects repo (oid ∷ oids)) db mid rows e in
    let (built, _) = pure-ok (by_oid rows) m mid db' rest in
    rw (built, same) (by_oid-filter _ key db.objects s.oids)
