-- ===== src/Server/Batch/Served.antt =====
-- A batch for download offers exactly what the repository may download.
use git_lfs_server.Base.{
  ◌≡◌, refl, ap, subst, ◌∙◌, ◌↔◌, ◌≢◌, inl, inr, true, ◌&&◌, Option, none, some, List, [], ◌∷◌,
  is_some, All, All-map, all, arith, Bool-cases, Option-cases,
}
use git_lfs_server.Base.Int.{ℤ, negsuc}
use git_lfs_server.Base.Text.{Str}
use git_lfs_server.Error.{ok}
use git_lfs_server.Database.Schema.{Object, RepoObject, Db, consistent}
use git_lfs_server.Database.Statements.{find, has_oid, is_linked, in_repo, any_oid}
use git_lfs_server.Database.Objects.{deref, ObjectMap, get_repo_objects_by_oids}
use git_lfs_server.Database.Invariant.{IsSound}
use git_lfs_server.Database.Invariant.Rows.{find-consistent}
use git_lfs_server.Database.Link.{IsStored}
use git_lfs_server.Database.Reads.{kept, find-test, get_repo_objects_by_oids-lookup}
use git_lfs_server.Server.{
  Permission, BatchResponseObject, batch, Response, World, Params, repo_name_from_context, in_db,
  write_lfs_error,
}
use git_lfs_server.Server.Laws.{attempt_post}
use git_lfs_server.Server.Batch.{
  BatchObject, BatchRequest, BatchConfig, download, operation_of, download_object, batch_object,
  batch_objects, serve_batch, process_batch, batch_refused, look_up, oids,
}
use git_lfs_server.Server.Batch.Answers.{named, asked, batch-injective, refused_not_batch}

-- Every object of a request has its object id among those that are looked up.
any_oid-all :
    (os : List BatchObject)
    → All (λ o. (x : Object) → x.oid ≡ o.oid → any_oid (oids os) x ≡ true) os
any_oid-all [] = tt
any_oid-all (o ∷ os) =
    (λ x h. ground arith, All-map os (λ p f x h. let k = f x h in ground arith) (any_oid-all os))

kept-any :
    (keys : List Str) (oid : Str) (links : List RepoObject) (repo : Str) (os : List Object)
    → ((x : Object) → x.oid ≡ oid → any_oid keys x ≡ true)
    → kept (λ o. any_oid keys o && in_repo repo links o) (find (has_oid oid) os)
      ≡ kept (in_repo repo links) (find (has_oid oid) os)
kept-any keys oid links repo os h = elim (Option-cases (find (has_oid oid) os)) [
  | inl e ↦ rw e refl
  | inr (o, e) ↦ ground (arith, find-test (has_oid oid) os o e, h o)
]

-- An entry without an error is an object that the repository may download, of that size.
abbrev pub IsServed : Str → Db → BatchResponseObject → Type 0
IsServed repo db r = (r.error ≡ none) ↔ ((uri : Str) × IsStored repo r.oid r.size uri db)

module _ (config : BatchConfig) (repo : Str) (authz : Str) where
  stored_row :
      (oid : Str) (size : ℤ) (uri : Str) (db : Db) (row : Object)
      → find (has_oid oid) db.objects ≡ some row
      → IsStored repo oid size uri db
      → (in_repo repo db.repo_objects row ≡ true) × (row.size ≡ some size)
  stored_row oid size uri db row e st =
      let same : st.row ≡ row = cc (st.found, e) in
      subst (λ r. (in_repo repo db.repo_objects r ≡ true) × (r.size ≡ some size)) same
        (rw (st.linked, st.verified) (ground arith), st.row_size)

  row_stored :
      (oid : Str) (size : ℤ) (db : Db) (row : Object)
      → find (has_oid oid) db.objects ≡ some row
      → all consistent db.objects ≡ true
      → in_repo repo db.repo_objects row ≡ true
      → deref row.size (negsuc 0) ≡ size
      → (uri : Str) × IsStored repo oid size uri db
  unfolding deref
  row_stored oid size db row e s i z =
      let fits = find-consistent (has_oid oid) db.objects row s e in
      let linked : (is_linked repo row.id db.repo_objects ≡ true)
          × (is_some row.verified_at ≡ true) =
        ground arith in
      let there : (row.size ≡ some size) × (row.object_uri ≡ some (deref row.object_uri [])) =
        ground arith in
      (
        deref row.object_uri [],
        record {
          row = row;
          found = e;
          row_size = there.0;
          row_uri = there.1;
          verified = linked.1;
          linked = linked.0;
        },
      )

  offered_row :
      (o : BatchObject) (row : Object)
      → ((download_object config repo authz o (some row)).error ≡ none)
        ↔ (deref row.size (negsuc 0) ≡ o.size)
  unfolding download_object
  offered_row o row = ground arith

  offered_none : (o : BatchObject) → (download_object config repo authz o none).error ≢ none
  unfolding download_object
  offered_none o h = cc

  size_of_row : (row : Object) (size : ℤ) → row.size ≡ some size → deref row.size (negsuc 0) ≡ size
  unfolding deref
  size_of_row row size h = ground arith

  -- One row, found or not.
  served_row :
      (o : BatchObject) (db : Db) (r : Option Object)
      → find (has_oid o.oid) db.objects ≡ r
      → all consistent db.objects ≡ true
      → ((download_object config repo authz o (kept (in_repo repo db.repo_objects) r)).error ≡ none)
        ↔ ((uri : Str) × IsStored repo o.oid o.size uri db)
  served_row o db none e s =
      (λ h. absurd (offered_none o h), λ (uri, st). absurd (cc (st.found, e)))
  served_row o db (some row) e s = elim (Bool-cases (in_repo repo db.repo_objects row)) [
    | inr out ↦ rw out (
      λ h. absurd (offered_none o h),
      λ (uri, st). absurd (cc (out, (stored_row o.oid o.size uri db row e st).0)),
    )
    | inl here ↦ rw here (
      λ h. row_stored o.oid o.size db row e s here ((offered_row o row).0 h),
      λ (uri, st).
          (offered_row o row).1
            (size_of_row row o.size (stored_row o.oid o.size uri db row e st).1),
    )
  ]

  download_object-named :
      (o : BatchObject) (r : Option Object)
      → named (download_object config repo authz o r) ≡ asked o
  unfolding download_object
  download_object-named o r = ground arith

  IsServed-object :
      (keys : List Str) (o : BatchObject) (db : Db) (existing : ObjectMap)
      → IsSound db
      → existing o.oid
        ≡ kept
            (λ x. any_oid keys x && in_repo repo db.repo_objects x)
            (find (has_oid o.oid) db.objects)
      → ((x : Object) → x.oid ≡ o.oid → any_oid keys x ≡ true)
      → IsServed repo db (download_object config repo authz o (existing o.oid))
  IsServed-object keys o db existing s e h =
      let same = e ∙ kept-any keys o.oid db.repo_objects repo db.objects h in
      let n = download_object-named o (existing o.oid) in
      rw (ap (λ p. p.0) n, ap (λ p. p.1) n)
        (rw same (served_row o db (find (has_oid o.oid) db.objects) refl s.check))

  IsServed-all :
      (keys : List Str) (os : List BatchObject) (db : Db) (existing : ObjectMap) (now : Db)
      → IsSound db
      → ((key : Str)
          → existing key
            ≡ kept
                (λ x. any_oid keys x && in_repo repo db.repo_objects x)
                (find (has_oid key) db.objects))
      → All (λ o. (x : Object) → x.oid ≡ o.oid → any_oid keys x ≡ true) os
      → All (IsServed repo db) (batch_objects config repo authz download existing os now).0
  unfolding batch_objects batch_object
  IsServed-all keys [] db existing now s e h = tt
  IsServed-all keys (o ∷ os) db existing now s e h = (
    IsServed-object keys o db existing s (e o.oid) h.0,
    IsServed-all keys os db existing now s e h.1,
  )

module _ {S : Type 0} (config : BatchConfig) (c : Params) (perm : Permission) (authz : Str) where
  abbrev ServesAll : World S → Response × World S → Type 0
  ServesAll w x =
      (out : List BatchResponseObject)
      → x.0.body ≡ batch out
      → All (IsServed (repo_name_from_context c) w.db) out

  look_up-ok :
      (req : BatchRequest) (w w' : World S) (existing : ObjectMap)
      → operation_of req.operation ≡ download
      → in_db (look_up (operation_of req.operation) (repo_name_from_context c) (oids req.objects)) w
        ≡ (ok existing, w')
      → get_repo_objects_by_oids (repo_name_from_context c) (oids req.objects) w.db
        ≡ (ok existing, w'.db)
  unfolding look_up
  look_up-ok req w w' existing d h =
      let k = rw d at h in
      let r = get_repo_objects_by_oids (repo_name_from_context c) (oids req.objects) w.db in cc (k)

  process_batch-served :
      (req : BatchRequest) (w : World S)
      → IsSound w.db
      → operation_of req.operation ≡ download
      → ServesAll w (process_batch config c perm authz req w)
  unfolding process_batch write_lfs_error
  process_batch-served req w s d =
      attempt_post (ServesAll w) _ _ _ w (λ e w' h out k. absurd (cc))
        (λ existing w' h out k.
          let found = look_up-ok req w w' existing d h in
          subst (All (IsServed (repo_name_from_context c) w.db)) (batch-injective _ out k) (
            rw d (
              IsServed-all config (repo_name_from_context c) authz (oids req.objects) req.objects
                w.db existing w'.db s
                (λ key.
                  get_repo_objects_by_oids-lookup (repo_name_from_context c) (oids req.objects) w.db
                    w'.db existing key s found)
                (any_oid-all req.objects))))

  -- A batch for download, on sound tables, reports no error for exactly those objects of the request
  -- that the tables have verified and linked to the repository with the size that was asked for.
  pub serve_batch-IsServed :
      (req : BatchRequest) (w : World S) (out : List BatchResponseObject)
      → IsSound w.db
      → operation_of req.operation ≡ download
      → (serve_batch config c perm authz (some req) w).0.body ≡ batch out
      → All (IsServed (repo_name_from_context c) w.db) out
  unfolding serve_batch
  serve_batch-IsServed req w out s d h = elim (Option-cases (batch_refused req perm)) [
    | inl e ↦ process_batch-served req w s d out (rw e at h)
    | inr (r, e) ↦ absurd (refused_not_batch req perm r e out (rw e at h))
  ]
