-- ===== src/Server/Backed/Upload.antt =====
-- serveUpload with the filesystem backend keeps every entry of the catalog at a file of its own, and
-- every file whole.
use git_lfs_server.Base.{
  ℕ, ◌≡◌, ◌<◌, ◌^◌, sym, ap, ◌∙◌, subst, Bool, true, none, some, List, ◌⊎◌, is_some, arith, inl,
  inr, Bool-cases,
}
use git_lfs_server.Base.Int.{ℤ}
use git_lfs_server.Base.Text.{Str}
use git_lfs_server.Error.{ok}
use git_lfs_server.Database.Invariant.{IsSound}
use git_lfs_server.Database.Objects.{link_object}
use git_lfs_server.Database.Catalog.{Catalog, view}
use git_lfs_server.Database.Catalog.Refines.{link_object-view}
use git_lfs_server.Iox.{Read}
use git_lfs_server.Iox.Equivalence.{available}
use git_lfs_server.Iox.Hex.{hex_encode}
use git_lfs_server.Iox.Accepts.{upload_copy}
use git_lfs_server.Storage.{Source, proxier}
use git_lfs_server.Storage.FilePath.Under.{IsClean}
use git_lfs_server.Storage.Filesystem.{Fs, FilesystemBackend, filesystem_proxier, put, storage_path}
use git_lfs_server.Storage.Filesystem.Put.{put-IsWhole, put-ok}
use git_lfs_server.Storage.Filesystem.Draws.{put-keeps}
use git_lfs_server.Storage.Filesystem.Paths.{storage_path-IsLasting, storage_path-injective}
use git_lfs_server.Server.{
  Permission, World, Params, Storages, in_db, in_store, matches_oid, host_from_context,
  repo_name_from_context,
}
use git_lfs_server.Server.Laws.{attempt_post}
use git_lfs_server.Server.Brought.{in_store-world}
use git_lfs_server.Server.Accepted.{source-IsAnnounced}
use git_lfs_server.Server.Upload.{
  source_of, put_failed, stored_at, serve_upload_proxy, serve_upload,
}
use git_lfs_server.Server.Backed.{
  IsIntact, IsFiled, AreFiled, IsHeld, link_object-AreFiled, store-AreFiled,
}

module _ (host_ok : Str → Bool) (cwd : Str) (sha256 : List ℕ → List ℕ) (c : Params)
    (body : List Read) (b : FilesystemBackend) (root : IsClean b.root) (temp : IsClean b.temp_dir)
    (small : available body < 2 ^ 63) (valid : matches_oid c.oid ≡ true) (size : ℤ) where
  abbrev source : Source
  source = source_of (upload_copy sha256 size c.oid body)

  put-IsIntact : (fs : Fs) → IsIntact sha256 b fs → IsIntact sha256 b (put b c.oid source fs).1
  put-IsIntact fs k = record {
    hashed = λ oid bytes v h.
        elim (put-IsWhole b c.oid source (storage_path b oid) fs
          (storage_path-IsLasting b root temp oid fs.randoms v k.drawn)) [
            | inl same ↦ k.hashed oid bytes v (sym same ∙ h)
            | inr (path, written, fine) ↦
                let (whole, announced) = source-IsAnnounced sha256 size c.oid body small fine in
                let named = storage_path-injective b root oid c.oid v valid path in
                let same : bytes ≡ source.0 = cc (h, written) in
                ap (λ x. hex_encode (sha256 x)) (same ∙ whole) ∙ announced.2 ∙ sym named
          ];
    drawn = put-keeps _ b c.oid source fs k.drawn;
  }

  -- Put removes no file of an object.
  put-stays :
      (oid : Str) (fs : Fs)
      → IsIntact sha256 b fs
      → matches_oid oid ≡ true
      → is_some (fs.files (storage_path b oid)) ≡ true
      → is_some ((put b c.oid source fs).1.files (storage_path b oid)) ≡ true
  put-stays oid fs k v there =
      elim (put-IsWhole b c.oid source (storage_path b oid) fs
        (storage_path-IsLasting b root temp oid fs.randoms v k.drawn)) [
          | inl same ↦ ap is_some same ∙ there
          | inr (path, written, fine) ↦ ap is_some written
        ]

  put-AreFiled :
      (d : Catalog) (fs : Fs)
      → IsIntact sha256 b fs
      → AreFiled sha256 b d fs
      → AreFiled sha256 b d (put b c.oid source fs).1
  put-AreFiled d fs k old oid n u h =
      let f = old oid n u h in
      record { valid = f.valid; located = f.located; filed = put-stays oid fs k f.valid f.filed }

  put-IsFiled :
      (uri : Str) (fs fs' : Fs)
      → IsIntact sha256 b fs
      → put b c.oid source fs ≡ (ok uri, fs')
      → IsFiled sha256 b c.oid uri fs'
  put-IsFiled uri fs fs' k h =
      let (named, there) =
        put-ok b c.oid source fs fs' uri
          (storage_path-IsLasting b root temp c.oid fs.randoms valid k.drawn) h in
      record {
        valid = valid;
        located = named;
        filed = elim there [
          | inl (was, same) ↦ ap is_some same ∙ was
          | inr (fine, written) ↦ ap is_some written
        ];
      }

  stored_at-same :
      (uri stored : Str) (w : World Fs)
      → stored ≡ uri
      → (stored_at sha256 c body (filesystem_proxier host_ok cwd b) uri stored w).1 ≡ w
  stored_at-same uri stored w e = ground arith

  serve_upload_proxy-IsHeld :
      (w : World Fs)
      → IsSound w.db
      → IsHeld sha256 b w
      → IsHeld sha256 b
          (serve_upload_proxy sha256 c body (filesystem_proxier host_ok cwd b) size w).1
  unfolding serve_upload_proxy filesystem_proxier
  serve_upload_proxy-IsHeld w s (old, intact) =
      let after : IsHeld sha256 b (in_store (put b c.oid source) w).1 =
        (put-AreFiled (view w.db) w.store intact old, put-IsIntact w.store intact) in
      attempt_post (λ x. IsHeld sha256 b x.1) (in_store (put b c.oid source)) put_failed _ w
        (λ e w₁ h. subst (λ x. IsHeld sha256 b x.1) h after)
        (λ uri w₁ h.
          let held = subst (λ x. IsHeld sha256 b x.1) h after in
          let (done, same) = in_store-world (put b c.oid source) w w₁ uri h in
          let sound : IsSound w₁.db = subst IsSound (sym same) s in
          let new = put-IsFiled uri w.store w₁.store intact done in
          let linked : IsHeld sha256 b
              (in_db (link_object (repo_name_from_context c) c.oid size uri) w₁).1 =
            (
              link_object-AreFiled sha256 b (repo_name_from_context c) c.oid size uri w₁.db w₁.store
                  sound (λ free. new) held.0,
              held.1,
            ) in
          attempt_post (λ x. IsHeld sha256 b x.1)
            (in_db (link_object (repo_name_from_context c) c.oid size uri)) _ _ w₁
            (λ e w₂ k. subst (λ x. IsHeld sha256 b x.1) k linked)
            (λ stored w₂ k.
              let got : link_object (repo_name_from_context c) c.oid size uri w₁.db
                  ≡ (ok stored, w₂.db) =
                cc (k) in
              let (_, at_) =
                store-AreFiled sha256 b (repo_name_from_context c) c.oid size uri stored
                  (view w₁.db) (view w₂.db) w₁.store
                  (link_object-view (repo_name_from_context c) c.oid size uri w₁.db sound stored
                    w₂.db got)
                  (λ free. new) held.0 in
              subst (IsHeld sha256 b)
                (sym (stored_at-same uri stored w₂ (at_.located ∙ sym new.located)))
                (subst (λ x. IsHeld sha256 b x.1) k linked)))

module _ (host_ok : Str → Bool) (cwd : Str) (sha256 : List ℕ → List ℕ) (c : Params)
    (body : List Read) (b : FilesystemBackend) (root : IsClean b.root) (temp : IsClean b.temp_dir)
    (small : available body < 2 ^ 63) where
  -- Whatever serveUpload answers, and whichever calls fail.
  pub serve_upload-IsHeld :
      (storages : Storages Fs) (limit : ℤ) (perm : Permission) (size : ℤ) (w : World Fs)
      → (storages (host_from_context c) ≡ none)
        ⊎ (storages (host_from_context c) ≡ some (proxier (filesystem_proxier host_ok cwd b)))
      → IsSound w.db
      → IsHeld sha256 b w
      → IsHeld sha256 b (serve_upload sha256 c body storages limit perm size w).1
  unfolding serve_upload
  serve_upload-IsHeld storages limit perm size w one s held =
      elim (Bool-cases (matches_oid c.oid)) [
        | inr invalid ↦ ground arith
        | inl valid ↦ elim one [
          | inl e ↦ ground arith
          | inr e ↦
              let done =
                serve_upload_proxy-IsHeld host_ok cwd sha256 c body b root temp small valid size w s
                  held in
              ground arith
        ]
      ]
