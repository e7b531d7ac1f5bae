-- ===== src/Server/Delivery.antt =====
-- From the upload of an object to its downloads, with the filesystem backend.
use git_lfs_server.Effect.{◌>>=◌}
use git_lfs_server.Base.{
  ℕ, ◌≡◌, ap, none, ◌∙◌, ◌<◌, ◌^◌, Bool, true, false, some, List, [], ◌∷◌, ◌++◌, arith,
}
use git_lfs_server.Base.Int.{ℤ, pos}
use git_lfs_server.Base.Text.{Str, str, is_empty}
use git_lfs_server.Error.{ok}
use git_lfs_server.Database.Exec
use git_lfs_server.Database.Catalog.History.{History, History-IsSound}
use git_lfs_server.Database.Catalog.Durable.{History-IsStored}
use git_lfs_server.Iox.{Read}
use git_lfs_server.Iox.Equivalence.{available}
use git_lfs_server.Iox.Verdict.{delivered, final}
use git_lfs_server.Iox.Accepts.{IsAnnounced}
use git_lfs_server.Storage.{proxier}
use git_lfs_server.Storage.Filesystem
use git_lfs_server.Storage.Filesystem.{
  Fs, FilesystemBackend, filesystem_proxier, put, storage_path, uri_from_path, open_uri, open_file,
  read_file, syscall, file,
}
use git_lfs_server.Storage.Filesystem.Uris.{IsReadable, path_from_uri-uri_from_path}
use git_lfs_server.Server.{
  Permission, World, Params, Storages, host_from_context, repo_name_from_context, matches_oid,
  may_read, content,
}
use git_lfs_server.Server.Upload.{serve_upload}
use git_lfs_server.Server.Download.{serve_download, with_length}
use git_lfs_server.Server.Sound.{serve_upload-IsSound}
use git_lfs_server.Storage.Url.Safe.{IsScheme}
use git_lfs_server.Server.Serving.{serve_download-serves, sent-whole}
use git_lfs_server.Server.Brought.{object_uri, IsNew, serve_upload-IsBrought}

module _ (host_ok : Str → Bool) (cwd : Str) (sha256 : List ℕ → List ℕ) (c : Params)
    (body : List Read) (b : FilesystemBackend) (r : IsReadable b) where
  pub open_uri-kept :
      (bytes : List ℕ) (fs : Fs)
      → host_ok [] ≡ true
      → matches_oid c.oid ≡ true
      → fs.files (storage_path b c.oid) ≡ some bytes
      → Filesystem.first_fault fs.faults ≡ false
      → Filesystem.first_fault (Filesystem.later_faults fs.faults) ≡ false
      → (open_uri host_ok cwd b (object_uri host_ok cwd sha256 c body b r) fs).0 ≡ ok (bytes, none)
  unfolding open_uri open_file read_file syscall ◌>>=◌
  open_uri-kept bytes fs fine valid filed up up₂ =
      let path = path_from_uri-uri_from_path host_ok cwd b r c.oid valid fine in
      rw (path, up, filed, up₂) (ground arith)

  pub object_uri-full : is_empty (object_uri host_ok cwd sha256 c body b r) ≡ false
  unfolding is_empty uri_from_path
  object_uri-full = go r.word r.is_scheme r.scheme_is
    where
      go :
          (word : Str)
          → IsScheme word
          → b.scheme ≡ word ++ str "://"
          → is_empty (object_uri host_ok cwd sha256 c body b r) ≡ false
      go [] h e = absurd h
      go (x ∷ xs) h e = ground (arith, e)

  -- For a filesystem backend whose root is clean, is not "/", and has no "%", "?", "#" or control
  -- character, and whose scheme is one in lower case, where net/url accepts the empty authority: an
  -- object that is new, with no entry in sound tables and no file, is uploaded, with a body shorter
  -- than 2 ^ 63 bytes and a Content-Length that is not negative, and answered by 204; the directory
  -- of temporary files is clean, and no name that os.CreateTemp draws has a slash. Then its body
  -- has ended by io.EOF, is as long as the Content-Length says, and hashes to the object id; and
  -- while the database does only what its operations do, failed statements and sweeps included, and
  -- the object's file is not written, a download by one who may read, in which no statement and no
  -- system call fails, answers with a Content-Length of that many bytes and with the body, whole.
  pub upload-download :
      {mine : Str → Type 0} (storages : Storages Fs) (limit : ℤ) (perm perm' : Permission)
      (size : ℕ) (w later : World Fs)
      → host_ok [] ≡ true
      → storages (host_from_context c) ≡ some (proxier (filesystem_proxier host_ok cwd b))
      → available body < 2 ^ 63
      → IsNew host_ok cwd sha256 c body b r w
      → (serve_upload sha256 c body storages limit perm (pos size) w).0.code ≡ 204
      → History mine (serve_upload sha256 c body storages limit perm (pos size) w).1.db later.db
      → later.store.files (storage_path b c.oid)
        ≡ (serve_upload sha256 c body storages limit perm (pos size) w).1.store.files
            (storage_path b c.oid)
      → may_read perm' ≡ true
      → Exec.first_fault later.db.faults ≡ false
      → Filesystem.first_fault later.store.faults ≡ false
      → Filesystem.first_fault (Filesystem.later_faults later.store.faults) ≡ false
      → IsAnnounced sha256 (pos size) c.oid (delivered body) (final body)
        × ((serve_download c storages perm' later).0
            ≡ with_length (pos size) (content (delivered body)))
  unfolding filesystem_proxier
  upload-download storages limit perm perm' size w later fine e small new h hist same may up up'
        up₂ =
      let sound = serve_upload-IsSound sha256 c body storages limit perm (pos size) w new.sound in
      let (valid, announced, kept) =
        serve_upload-IsBrought host_ok cwd sha256 c body b r storages limit perm (pos size) w e
          small new h in
      (
        announced,
        serve_download-serves c storages (filesystem_proxier host_ok cwd b) later perm' size
              (object_uri host_ok cwd sha256 c body b r) (delivered body, none) e may valid
              (History-IsSound hist sound) up
              (History-IsStored (repo_name_from_context c) c.oid (pos size)
                (object_uri host_ok cwd sha256 c body b r) _ later.db sound hist kept.stored)
              object_uri-full
              (open_uri-kept (delivered body) later.store fine valid (same ∙ kept.filed) up' up₂)
            ∙ ap (with_length (pos size)) (sent-whole (pos size) (delivered body) announced.1),
      )
