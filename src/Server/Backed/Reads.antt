-- ===== src/Server/Backed/Reads.antt =====
-- serveDownload and serveVerify with the filesystem backend change no entry of the catalog and no
-- file.
use git_lfs_server.Base.{
  ◌≡◌, ◌⊎◌, refl, ap, subst, Bool, Option, none, some, List, [], arith, inl, inr, ℕ,
}
use git_lfs_server.Base.Int.{ℤ, negsuc}
use git_lfs_server.Base.Text.{Str}
use git_lfs_server.Database.Schema.{Object}
use git_lfs_server.Database.Objects.{deref, get_repo_object_by_oid}
use git_lfs_server.Database.Unchanged.{get_repo_object-IsUnchanged}
use git_lfs_server.Database.Catalog.{view}
use git_lfs_server.Storage.{proxier}
use git_lfs_server.Storage.Filesystem.{Fs, FilesystemBackend, filesystem_proxier, open_uri}
use git_lfs_server.Storage.Filesystem.Draws.{open_uri-files}
use git_lfs_server.Server.{
  Permission, World, Params, Storages, in_db, in_store, host_from_context, repo_name_from_context,
}
use git_lfs_server.Server.Laws.{attempt_post}
use git_lfs_server.Server.Downloads.{serve_download-IsUnchanged}
use git_lfs_server.Server.Download.{
  serve_download, serve_download_proxy, download_row, download, lookup_failed,
}
use git_lfs_server.Server.Verify.{VerifyRequest, serve_verify, serve_verify_proxy}
use git_lfs_server.Server.Backed.{IsHeld, SameFiles, same-IsHeld}

module _ (host_ok : Str → Bool) (cwd : Str) (sha256 : List ℕ → List ℕ) (c : Params)
    (b : FilesystemBackend) where
  abbrev IsServed : World Fs → World Fs → Type 0
  IsServed w w' = SameFiles sha256 b w.store w'.store

  download_proxy-IsServed :
      (uri : Str) (size : ℤ) (w : World Fs)
      → IsServed w (serve_download_proxy c (filesystem_proxier host_ok cwd b) uri size w).1
  unfolding serve_download_proxy filesystem_proxier
  download_proxy-IsServed uri size w =
      attempt_post (λ x. IsServed w x.1) (in_store (open_uri host_ok cwd b uri)) _ _ w
        (λ e w' h. subst (λ x. IsServed w x.1) h (open_uri-files host_ok cwd b uri w.store))
        (λ a w' h. subst (λ x. IsServed w x.1) h (open_uri-files host_ok cwd b uri w.store))

  download_row-IsServed :
      (o : Object) (w : World Fs)
      → IsServed w (download_row c (proxier (filesystem_proxier host_ok cwd b)) o w).1
  download_row-IsServed o w =
      ground (arith, download_proxy-IsServed (deref o.object_uri []) (deref o.size (negsuc 0)) w)

  download-IsServed :
      (w : World Fs)
      → IsServed w (download c (some (proxier (filesystem_proxier host_ok cwd b))) w).1
  download-IsServed w =
      attempt_post (λ x. IsServed w x.1)
        (in_db (get_repo_object_by_oid (repo_name_from_context c) c.oid)) lookup_failed
        (download_row c (proxier (filesystem_proxier host_ok cwd b))) w
        (λ e w' h. subst (λ x. IsServed w x.1) h (refl, refl))
        (λ o w' h.
          let same : w'.store ≡ w.store = cc (h) in
          subst
            (λ s.
              SameFiles sha256 b s
                (download_row c (proxier (filesystem_proxier host_ok cwd b)) o w').1.store)
            same (download_row-IsServed o w'))

  serve_download-IsServed :
      (storages : Storages Fs) (perm : Permission) (w : World Fs)
      → (storages (host_from_context c) ≡ none)
        ⊎ (storages (host_from_context c) ≡ some (proxier (filesystem_proxier host_ok cwd b)))
      → IsServed w (serve_download c storages perm w).1
  unfolding serve_download
  serve_download-IsServed storages perm w (inl e) = ground arith
  serve_download-IsServed storages perm w (inr e) = ground (arith, download-IsServed w)

  pub serve_download-IsHeld :
      (storages : Storages Fs) (perm : Permission) (w : World Fs)
      → (storages (host_from_context c) ≡ none)
        ⊎ (storages (host_from_context c) ≡ some (proxier (filesystem_proxier host_ok cwd b)))
      → IsHeld sha256 b w
      → IsHeld sha256 b (serve_download c storages perm w).1
  unfolding view
  serve_download-IsHeld storages perm w one held =
      same-IsHeld sha256 b w (serve_download c storages perm w).1
        (ap view (serve_download-IsUnchanged c storages perm w))
        (serve_download-IsServed storages perm w one) held

  verify_proxy-IsHeld :
      (req : VerifyRequest) (w : World Fs)
      → IsHeld sha256 b w
      → IsHeld sha256 b (serve_verify_proxy c req w).1
  unfolding serve_verify_proxy view
  verify_proxy-IsHeld req w held =
      attempt_post (λ x. IsHeld sha256 b x.1)
        (in_db (get_repo_object_by_oid (repo_name_from_context c) req.oid)) _ _ w
        (λ e w' h. subst (λ x. IsHeld sha256 b x.1) h read)
        (λ o w' h. let k = subst (λ x. IsHeld sha256 b x.1) h read in ground arith)
    where
      read : IsHeld sha256 b (in_db (get_repo_object_by_oid (repo_name_from_context c) req.oid) w).1
      read =
          same-IsHeld sha256 b w
            (in_db (get_repo_object_by_oid (repo_name_from_context c) req.oid) w).1
            (ap view (get_repo_object-IsUnchanged (repo_name_from_context c) req.oid w.db))
            (refl, refl) held

  pub serve_verify-IsHeld :
      (storages : Storages Fs) (perm : Permission) (decoded : Option VerifyRequest) (w : World Fs)
      → (storages (host_from_context c) ≡ none)
        ⊎ (storages (host_from_context c) ≡ some (proxier (filesystem_proxier host_ok cwd b)))
      → IsHeld sha256 b w
      → IsHeld sha256 b (serve_verify c storages perm decoded w).1
  unfolding serve_verify
  serve_verify-IsHeld storages perm none w one held = ground arith
  serve_verify-IsHeld storages perm (some req) w (inl e) held = ground arith
  serve_verify-IsHeld storages perm (some req) w (inr e) held =
      ground (arith, verify_proxy-IsHeld req w held)
