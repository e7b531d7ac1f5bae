-- ===== src/Server/Downloads.antt =====
-- Downloads write nothing, and hand out only what the repository has.
use git_lfs_server.Base.{
  ◌≡◌, refl, sym, ◌≢◌, subst, inl, inr, ◌<◌, Bool, ◌&&◌, none, some, List, [], Option-cases, arith,
  All, ◌∷◌,
}
use git_lfs_server.Base.Int.{ℤ, negsuc}
use git_lfs_server.Base.Text.{Str, dec_str}
use git_lfs_server.Error.{Error, Result, ok}
use git_lfs_server.Database.Schema.{Object, Db}
use git_lfs_server.Database.Exec.{Exec, query}
use git_lfs_server.Database.Exec.Laws.{>>=-ok, query-ok}
use git_lfs_server.Database.Statements.{find, has_oid, select_repo_object}
use git_lfs_server.Database.Objects.{deref, get_repo_object_by_oid}
use git_lfs_server.Database.Invariant.{IsSound, DistinctOids}
use git_lfs_server.Database.Link.{IsStored}
use git_lfs_server.Database.Link.Outcome.{found-ok}
use git_lfs_server.Database.Reads.{get_repo_object-is_verified}
use git_lfs_server.Database.Unchanged.{IsUnchanged, get_repo_object-IsUnchanged}
use git_lfs_server.Storage.{Backend, proxier, presigner, neither}
use git_lfs_server.Server.{
  Permission, World, Params, Storages, in_db, host_from_context, repo_name_from_context, attempt,
  write_lfs_error,
}
use git_lfs_server.Server.Laws.{attempt_post}
use git_lfs_server.Server.Download.{
  serve_download, serve_download_proxy, serve_download_presign, download_row, lookup_failed,
  download,
}

find-missing :
    (key : Str) (q : Object → Bool) (os : List Object)
    → All (λ p. p.oid ≢ key) os
    → find (λ x. has_oid key x && q x) os ≡ none
unfolding find
find-missing key q [] a = refl
find-missing key q (x ∷ os) a = ground (arith, find-missing key q os a.1)

-- Where the texts are distinct, the row of an object id that passes a test is the row of that id.
find-first :
    (key : Str) (q : Object → Bool) (os : List Object) (o : Object)
    → DistinctOids os
    → find (λ x. has_oid key x && q x) os ≡ some o
    → find (has_oid key) os ≡ some o
unfolding find
find-first key q [] o d h = cc
find-first key q (x ∷ os) o d h = elim (dec_str x.oid key) [
  | yes e ↦ ground (arith, find-missing key q os (subst (λ k. All (λ p. p.oid ≢ k) os) e d.0))
  | no ne ↦ ground (arith, find-first key q os o d.1)
]

lookup_failed-code : (e : Error) → ¬ ((lookup_failed e).code < 400)
unfolding write_lfs_error
lookup_failed-code e h = ground arith

-- GetRepoObjectByOID returns what the tables have stored for the repository.
found_stored :
    (repo oid : Str) (db db' : Db) (o : Object)
    → IsSound db
    → get_repo_object_by_oid repo oid db ≡ (ok o, db')
    → (size : ℤ) × (uri : Str) × IsStored repo oid size uri db
unfolding get_repo_object_by_oid select_repo_object deref
found_stored repo oid db db' o s h =
    let (_, linked, verified, sized, placed) = get_repo_object-is_verified repo oid db db' o s h in
    let (r, mid, e, rest) = >>=-ok (query (select_repo_object repo oid)) _ db db' o h in
    let (same, _) = query-ok (select_repo_object repo oid) db mid r e in
    let (there, _) = found-ok _ mid db' o (rw same at rest) in
    (
      deref o.size (negsuc 0),
      deref o.object_uri [],
      record {
        row = o;
        found = find-first oid _ db.objects o s.oids there;
        row_size = ground arith;
        row_uri = ground arith;
        verified = verified;
        linked = linked;
      },
    )

module _ {S : Type 0} (c : Params) where
  download_row-unchanged :
      (b : Backend S) (o : Object) (w : World S) → (download_row c b o w).1.db ≡ w.db
  unfolding serve_download_proxy serve_download_presign attempt
  download_row-unchanged (proxier b) o w = ground arith
  download_row-unchanged (presigner b) o w = ground arith
  download_row-unchanged (neither b) o w = ground arith

  download-IsUnchanged :
      (b : Backend S) (w : World S) → IsUnchanged w.db (download c (some b) w).1.db
  download-IsUnchanged b w =
      attempt_post (λ x. IsUnchanged w.db x.1.db)
        (in_db (get_repo_object_by_oid (repo_name_from_context c) c.oid)) lookup_failed
        (download_row c b) w (λ e w' h. subst (λ x. IsUnchanged w.db x.1.db) h read_only)
        (λ o w' h.
          subst (IsUnchanged w.db) (sym (download_row-unchanged b o w'))
            (subst (λ x. IsUnchanged w.db x.1.db) h read_only))
    where
      read_only : IsUnchanged w.db (get_repo_object_by_oid (repo_name_from_context c) c.oid w.db).1
      read_only = get_repo_object-IsUnchanged (repo_name_from_context c) c.oid w.db

  in_db-eq :
      {A : Type 0} (m : Exec A) (w w' : World S) (r : Result A)
      → in_db m w ≡ (r, w')
      → m w.db ≡ (r, w'.db)
  in_db-eq m w w' r h = cc (h)

  download-stored :
      (b : Backend S) (w : World S)
      → IsSound w.db
      → (download c (some b) w).0.code < 400
      → (size : ℤ) × (uri : Str) × IsStored (repo_name_from_context c) c.oid size uri w.db
  download-stored b w s =
      attempt_post
        (λ x.
          x.0.code < 400
          → (size : ℤ) × (uri : Str) × IsStored (repo_name_from_context c) c.oid size uri w.db)
        (in_db (get_repo_object_by_oid (repo_name_from_context c) c.oid)) lookup_failed
        (download_row c b) w (λ e w' h k. absurd (lookup_failed-code e k))
        (λ o w' h k.
          found_stored (repo_name_from_context c) c.oid w.db w'.db o s
            (in_db-eq (get_repo_object_by_oid (repo_name_from_context c) c.oid) w w' (ok o) h))

  -- serveDownload changes no row, no key and no clock of the database.
  pub serve_download-IsUnchanged :
      (storages : Storages S) (perm : Permission) (w : World S)
      → IsUnchanged w.db (serve_download c storages perm w).1.db
  unfolding serve_download
  serve_download-IsUnchanged storages perm w =
      elim (Option-cases (storages (host_from_context c))) [
        | inl e ↦ ground arith
        | inr (b, e) ↦ ground (arith, download-IsUnchanged b w)
      ]

  -- A download that does not fail, on sound tables, is of an object id that has a verified row which
  -- is linked to the repository.
  pub serve_download-stored :
      (storages : Storages S) (perm : Permission) (w : World S)
      → IsSound w.db
      → (serve_download c storages perm w).0.code < 400
      → (size : ℤ) × (uri : Str) × IsStored (repo_name_from_context c) c.oid size uri w.db
  unfolding serve_download write_lfs_error
  serve_download-stored storages perm w s h = elim (Option-cases (storages (host_from_context c))) [
    | inl e ↦ absurd (ground arith)
    | inr (b, e) ↦ ground (arith, download-stored b w s)
  ]
