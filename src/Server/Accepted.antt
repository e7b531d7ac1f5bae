-- ===== src/Server/Accepted.antt =====
-- An upload to the filesystem backend that succeeds has brought the announced bytes, unless a file
-- was there already.
use git_lfs_server.Base.{
  ℕ, ◌≡◌, ap, ◌⊎◌, inl, inr, ◌<◌, ◌^◌, Bool, true, none, some, List, is_some, Option-cases, arith,
}
use git_lfs_server.Base.Int.{ℤ}
use git_lfs_server.Base.Text.{Str}
use git_lfs_server.Iox.{Read}
use git_lfs_server.Iox.Equivalence.{available}
use git_lfs_server.Iox.Verdict.{delivered, final}
use git_lfs_server.Iox.Accepts.{upload_copy, IsAnnounced, upload_copy-accepts_iff}
use git_lfs_server.Storage.{proxier}
use git_lfs_server.Storage.Filesystem.{Fs, FilesystemBackend, filesystem_proxier, put, storage_path}
use git_lfs_server.Storage.Filesystem.Put.{IsLasting, put-ok}
use git_lfs_server.Server.{Permission, World, Params, Storages, host_from_context, write_lfs_error}
use git_lfs_server.Server.Laws.{attempt_post}
use git_lfs_server.Server.Upload.{source_of, put_failed, serve_upload_proxy, serve_upload}
use git_lfs_server.Server.Stored.{in_store-ok, put_failed-code}

module _ (sha256 : List ℕ → List ℕ) (size : ℤ) (oid : Str) (body : List Read) where
  -- The copy of a body that ends without error brought what was announced.
  pub source-IsAnnounced :
      available body < 2 ^ 63
      → (source_of (upload_copy sha256 size oid body)).1 ≡ none
      → ((source_of (upload_copy sha256 size oid body)).0 ≡ delivered body)
        × IsAnnounced sha256 size oid (delivered body) (final body)
  source-IsAnnounced small h = elim (Option-cases (upload_copy sha256 size oid body)) [
    | inl e ↦ absurd (cc (rw e at h))
    | inr ((bytes, x), e) ↦
        let fine : x ≡ none = rw e at h in
        let (same, yes_) =
          (upload_copy-accepts_iff sha256 size oid body bytes small).0 (rw fine at e) in
        rw e (same, yes_)
  ]

module _ (host_ok : Str → Bool) (cwd : Str) (sha256 : List ℕ → List ℕ) (c : Params)
    (body : List Read) (b : FilesystemBackend) where
  -- The object's file was there, or the body is whole and is now in it.
  abbrev pub IsAccepted : ℤ → World Fs → Type 0
  IsAccepted size w =
      (is_some (w.store.files (storage_path b c.oid)) ≡ true)
      ⊎ IsAnnounced sha256 size c.oid (delivered body) (final body)

  serve_upload_proxy-IsAccepted :
      (size : ℤ) (w : World Fs)
      → available body < 2 ^ 63
      → IsLasting b (storage_path b c.oid) w.store.randoms
      → (serve_upload_proxy sha256 c body (filesystem_proxier host_ok cwd b) size w).0.code ≡ 204
      → IsAccepted size w
  unfolding serve_upload_proxy filesystem_proxier write_lfs_error
  serve_upload_proxy-IsAccepted size w small lasts =
      attempt_post (λ x. x.0.code ≡ 204 → IsAccepted size w) _ put_failed _ w
        (λ e w' h k. absurd (put_failed-code e k))
        (λ uri w' h k.
          let done =
            in_store-ok (put b c.oid (source_of (upload_copy sha256 size c.oid body))) w w' uri h in
          let after = (put b c.oid (source_of (upload_copy sha256 size c.oid body)) w.store).1 in
          elim (put-ok b c.oid (source_of (upload_copy sha256 size c.oid body)) w.store after uri
            lasts (ap (λ r. (r, after)) done)).1 [
              | inl (there, _) ↦ inl there
              | inr (fine, _) ↦ inr (source-IsAnnounced sha256 size c.oid body small fine).1
            ])

  -- An upload to the filesystem backend that is answered by 204, where the body is shorter than
  -- 2 ^ 63 bytes and the object's path is of no temporary file that may be drawn, found a file at
  -- that path, or its body ended by io.EOF, was as long as the Content-Length, and hashes to the
  -- object id.
  pub serve_upload-IsAccepted :
      (storages : Storages Fs) (limit : ℤ) (perm : Permission) (size : ℤ) (w : World Fs)
      → storages (host_from_context c) ≡ some (proxier (filesystem_proxier host_ok cwd b))
      → available body < 2 ^ 63
      → IsLasting b (storage_path b c.oid) w.store.randoms
      → (serve_upload sha256 c body storages limit perm size w).0.code ≡ 204
      → IsAccepted size w
  unfolding serve_upload write_lfs_error
  serve_upload-IsAccepted storages limit perm size w e small lasts h =
      ground (arith, serve_upload_proxy-IsAccepted size w small lasts)
