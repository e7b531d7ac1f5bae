-- ===== src/Server/Serving.antt =====
-- What a repository has stored is served to it.
use git_lfs_server.Base.{
  ℕ, ◌≡◌, ◌≢◌, ◌⊎◌, inl, inr, ap, true, false, none, some, List, length, arith, ℕ_discrete,
}
use git_lfs_server.Base.Int.{ℤ, pos}
use git_lfs_server.Base.Text.{Str, is_empty}
use git_lfs_server.Error.{ok}
use git_lfs_server.Database.Exec.{first_fault}
use git_lfs_server.Database.Objects.{deref}
use git_lfs_server.Database.Invariant.{IsSound}
use git_lfs_server.Database.Link.{IsStored}
use git_lfs_server.Database.Reads.{get_repo_object-IsStored}
use git_lfs_server.Storage.{Source, Proxier, proxier}
use git_lfs_server.Server.{
  Permission, World, Params, Storages, host_from_context, repo_name_from_context, attempt,
  write_lfs_error, content, cut_off, matches_oid, may_read, may_write,
}
use git_lfs_server.Server.Download.{serve_download, serve_download_proxy, streamed, sent}
use git_lfs_server.Server.Verify.{VerifyRequest, serve_verify, serve_verify_proxy}

pub sent-whole :
    (size : ℤ) (bytes : List ℕ)
    → size ≡ pos (length bytes)
    → sent size (bytes, none) ≡ content bytes
sent-whole size bytes h = ground arith

-- A file of the recorded size is sent whole, and any other is cut off.
pub sent-cases :
    (size : ℕ) (bytes : List ℕ)
    → ((size ≡ length bytes) × (sent (pos size) (bytes, none) ≡ content bytes))
      ⊎ ((size ≢ length bytes) × (sent (pos size) (bytes, none) ≡ cut_off))
sent-cases size bytes = elim (ℕ_discrete size (length bytes)) [
  | yes e ↦ inl (e, sent-whole (pos size) bytes (ap pos e))
  | no n ↦ inr (n, ground arith)
]

module _ {S : Type 0} (c : Params) (storages : Storages S) (b : Proxier S) (w : World S)
    (perm : Permission) where
  -- A download from a proxying storage by one who may read, of an object id that sound tables have
  -- stored for the repository at a URI that is not empty, with a size that is not negative, answers
  -- with what reading from Open of this URI gives, if Open succeeds and the query does not fail.
  pub serve_download-serves :
      (size : ℕ) (uri : Str) (source : Source)
      → storages (host_from_context c) ≡ some (proxier b)
      → may_read perm ≡ true
      → matches_oid c.oid ≡ true
      → IsSound w.db
      → first_fault w.db.faults ≡ false
      → IsStored (repo_name_from_context c) c.oid (pos size) uri w.db
      → is_empty uri ≡ false
      → (b.open_uri uri w.store).0 ≡ ok source
      → (serve_download c storages perm w).0 ≡ streamed (pos size) source
  unfolding serve_download serve_download_proxy attempt deref
  serve_download-serves size uri source e may valid s up st full opened =
      let got =
        get_repo_object-IsStored (repo_name_from_context c) c.oid (pos size) uri w.db s up st in
      rw (may, valid, e, got, st.row_uri, st.row_size, full, opened) (ground arith)

  -- A verification with a proxying storage by one who may write, of an object id that sound tables
  -- have stored for the repository, is answered by 204 if the request has the stored size, if the
  -- query does not fail; with another size it is answered by 422.
  pub serve_verify-compares :
      (size : ℤ) (uri : Str) (req : VerifyRequest)
      → storages (host_from_context c) ≡ some (proxier b)
      → may_write perm ≡ true
      → matches_oid req.oid ≡ true
      → IsSound w.db
      → first_fault w.db.faults ≡ false
      → IsStored (repo_name_from_context c) req.oid size uri w.db
      → ((size ≡ req.size) × ((serve_verify c storages perm (some req) w).0.code ≡ 204))
        ⊎ ((size ≢ req.size) × ((serve_verify c storages perm (some req) w).0.code ≡ 422))
  unfolding serve_verify serve_verify_proxy attempt deref write_lfs_error
  serve_verify-compares size uri req e may valid s up st =
      let got = get_repo_object-IsStored (repo_name_from_context c) req.oid size uri w.db s up st in
      rw (may, valid, e, got, st.row_size) (ground arith)
