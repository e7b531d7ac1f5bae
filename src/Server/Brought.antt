-- ===== src/Server/Brought.antt =====
-- An upload of a new object to the filesystem backend.
use git_lfs_server.Base.{
  ℕ, ◌≡◌, sym, ap, subst, ◌∙◌, ◌<◌, ◌^◌, Bool, true, none, some, List, All, inl, inr, Bool-cases,
  arith,
}
use git_lfs_server.Base.Int.{ℤ}
use git_lfs_server.Base.Text.{Str}
use git_lfs_server.Error.{Result, ok}
use git_lfs_server.Database.Schema.{Db}
use git_lfs_server.Database.Exec
use git_lfs_server.Database.Objects.{link_object}
use git_lfs_server.Database.Invariant.{IsSound}
use git_lfs_server.Database.Link.{IsStored}
use git_lfs_server.Database.Link.Outcome.{link_object-IsStored}
use git_lfs_server.Database.Catalog.{view, store}
use git_lfs_server.Database.Catalog.Refines.{link_object-view}
use git_lfs_server.Iox.{Read}
use git_lfs_server.Iox.Equivalence.{available}
use git_lfs_server.Iox.Verdict.{delivered, final}
use git_lfs_server.Iox.Accepts.{upload_copy, IsAnnounced}
use git_lfs_server.Storage.{proxier}
use git_lfs_server.Storage.FilePath.Clean.{slashless}
use git_lfs_server.Storage.FilePath.Under.{IsClean}
use git_lfs_server.Storage.Filesystem.{
  Fs, FilesystemBackend, filesystem_proxier, put, storage_path, uri_from_path,
}
use git_lfs_server.Storage.Filesystem.Put.{put-ok}
use git_lfs_server.Storage.Filesystem.Paths.{storage_path-IsLasting}
use git_lfs_server.Storage.Filesystem.Uris.{IsReadable}
use git_lfs_server.Server.{
  Permission, Response, World, Params, Storages, host_from_context, repo_name_from_context,
  matches_oid, in_db, in_store, write_lfs_error,
}
use git_lfs_server.Server.Laws.{attempt_post}
use git_lfs_server.Server.Upload.{
  source_of, put_failed, serve_upload_proxy, serve_upload, stored_at,
}
use git_lfs_server.Server.Stored.{in_db-ok, put_failed-code}
use git_lfs_server.Server.Accepted.{source-IsAnnounced}

pub in_store-world :
    {S A : Type 0} (m : S → Result A × S) (w w' : World S) (a : A)
    → in_store m w ≡ (ok a, w')
    → (m w.store ≡ (ok a, w'.store)) × (w'.db ≡ w.db)
in_store-world m w w' a h = (cc (h), cc (h))

in_db-store :
    {S A : Type 0} (m : Exec.Exec A) (w w' : World S) (r : Result A)
    → in_db m w ≡ (r, w')
    → w'.store ≡ w.store
in_db-store m w w' r h = cc (h)

module _ (host_ok : Str → Bool) (cwd : Str) (sha256 : List ℕ → List ℕ) (c : Params)
    (body : List Read) (b : FilesystemBackend) (r : IsReadable b) where
  abbrev pub object_uri : Str
  object_uri = uri_from_path b (storage_path b c.oid)

  -- The file of the object has these bytes, and its row says so.
  pub record IsKept (size : ℤ) (bytes : List ℕ) (w : World Fs) : Type 0 where
    pub stored : IsStored (repo_name_from_context c) c.oid size object_uri w.db
    pub filed : w.store.files (storage_path b c.oid) ≡ some bytes

  -- The object is new: it has no entry in the catalog, and no file.
  pub record IsNew (w : World Fs) : Type 0 where
    pub sound : IsSound w.db
    pub absent : (view w.db).object c.oid ≡ none
    pub unfiled : w.store.files (storage_path b c.oid) ≡ none
    pub temp : IsClean b.temp_dir
    pub randoms : All (λ random. slashless random ≡ true) w.store.randoms

  abbrev IsBrought : ℤ → Response × World Fs → Type 0
  IsBrought size x =
      x.0.code ≡ 204
      → IsAnnounced sha256 size c.oid (delivered body) (final body)
        × IsKept size (delivered body) x.1

  store-new :
      (repo : Str) (size : ℤ) (uri v : Str) (db db' : Db)
      → (view db).object c.oid ≡ none
      → store repo c.oid size uri (view db) ≡ some (v, view db')
      → v ≡ uri
  unfolding store
  store-new repo size uri v db db' e h = ground arith

  -- The URI that was recorded is the one that was written: nothing is deleted.
  stored_at-same :
      (uri stored : Str) (w : World Fs)
      → stored ≡ uri
      → (stored_at sha256 c body (filesystem_proxier host_ok cwd b) uri stored w).1 ≡ w
  stored_at-same uri stored w e = ground arith

  -- Put wrote the body, and returned the object's URI.
  put-brought :
      (size : ℤ) (w w₁ : World Fs) (uri : Str)
      → available body < 2 ^ 63
      → matches_oid c.oid ≡ true
      → IsNew w
      → in_store (put b c.oid (source_of (upload_copy sha256 size c.oid body))) w ≡ (ok uri, w₁)
      → (uri ≡ object_uri)
        × (w₁.db ≡ w.db)
        × (w₁.store.files (storage_path b c.oid) ≡ some (delivered body))
        × IsAnnounced sha256 size c.oid (delivered body) (final body)
  put-brought size w w₁ uri small valid new h =
      let source = source_of (upload_copy sha256 size c.oid body) in
      let (done, same) = in_store-world (put b c.oid source) w w₁ uri h in
      let lasts =
        storage_path-IsLasting b r.tidy new.temp c.oid w.store.randoms valid new.randoms in
      let (named, filed) = put-ok b c.oid source w.store w₁.store uri lasts done in
      elim filed [
        | inl (there, _) ↦ absurd (cc (rw new.unfiled at there))
        | inr (fine, written) ↦
            let (bytes, announced) = source-IsAnnounced sha256 size c.oid body small fine in
            (named, same, written ∙ ap some bytes, announced)
      ]

  -- LinkObject recorded the URI.
  link_object-brought :
      (size : ℤ) (uri stored : Str) (w₁ w₂ : World Fs)
      → IsSound w₁.db
      → (view w₁.db).object c.oid ≡ none
      → in_db (link_object (repo_name_from_context c) c.oid size uri) w₁ ≡ (ok stored, w₂)
      → (stored ≡ uri) × IsStored (repo_name_from_context c) c.oid size uri w₂.db
  link_object-brought size uri stored w₁ w₂ sound absent h =
      let linked =
        in_db-ok (link_object (repo_name_from_context c) c.oid size uri) w₁ w₂ stored h in
      let same = store-new (repo_name_from_context c) size uri stored w₁.db w₂.db absent (
        link_object-view (repo_name_from_context c) c.oid size uri w₁.db sound stored w₂.db
          linked) in
      (
        same,
        subst (λ u. IsStored (repo_name_from_context c) c.oid size u w₂.db) same
            (link_object-IsStored (repo_name_from_context c) c.oid size uri stored w₁.db w₂.db
              linked),
      )

  serve_upload_proxy-IsBrought :
      (size : ℤ) (w : World Fs)
      → available body < 2 ^ 63
      → matches_oid c.oid ≡ true
      → IsNew w
      → IsBrought size (serve_upload_proxy sha256 c body (filesystem_proxier host_ok cwd b) size w)
  unfolding serve_upload_proxy filesystem_proxier write_lfs_error
  serve_upload_proxy-IsBrought size w small valid new =
      attempt_post (IsBrought size) _ put_failed _ w (λ e w' h k. absurd (put_failed-code e k))
        (λ uri w₁ h₁.
          attempt_post (IsBrought size)
            (in_db (link_object (repo_name_from_context c) c.oid size uri)) _ _ w₁
            (λ e w' h k. absurd (omega arith))
            (λ stored w₂ h₂ k.
              let (named, same, written, announced) =
                put-brought size w w₁ uri small valid new h₁ in
              let (recorded, kept) =
                link_object-brought size uri stored w₁ w₂ (subst IsSound (sym same) new.sound)
                  (ap (λ d. (view d).object c.oid) same ∙ new.absent) h₂ in
              let unwritten =
                in_db-store (link_object (repo_name_from_context c) c.oid size uri) w₁ w₂
                  (ok stored) h₂ in
              (
                announced,
                subst (IsKept size (delivered body)) (sym (stored_at-same uri stored w₂ recorded))
                    (record {
                      stored =
                          subst (λ u. IsStored (repo_name_from_context c) c.oid size u w₂.db) named
                            kept;
                      filed = ap (λ fs. fs.files (storage_path b c.oid)) unwritten ∙ written;
                    }),
              )))

  pub serve_upload-IsBrought :
      (storages : Storages Fs) (limit : ℤ) (perm : Permission) (size : ℤ) (w : World Fs)
      → storages (host_from_context c) ≡ some (proxier (filesystem_proxier host_ok cwd b))
      → available body < 2 ^ 63
      → IsNew w
      → (serve_upload sha256 c body storages limit perm size w).0.code ≡ 204
      → (matches_oid c.oid ≡ true)
        × IsAnnounced sha256 size c.oid (delivered body) (final body)
        × IsKept size (delivered body) (serve_upload sha256 c body storages limit perm size w).1
  unfolding serve_upload write_lfs_error
  serve_upload-IsBrought storages limit perm size w e small new h =
      elim (Bool-cases (matches_oid c.oid)) [
        | inl valid ↦
            let brought = serve_upload_proxy-IsBrought size w small valid new in ground arith
        | inr invalid ↦ absurd (ground arith)
      ]
