-- ===== src/Server/History.antt =====
-- cmd/lfsd/lfs.go: each handler works on the database by the operations of internal/database/objects.go
-- only, one after another.
use git_lfs_server.Base.{
  ℕ, refl, subst, Option, none, some, ◌≡◌, true, List, Bool-cases, inl, inr, arith, is,
  Option-cases,
}
use git_lfs_server.Base.Int.{ℤ, dec_ℤ}
use git_lfs_server.Base.Text.{Str}
use git_lfs_server.Error.{Error, Result}
use git_lfs_server.Database.Objects.{
  get_repo_object_by_oid, link_object, verify_object, insert_pending_object,
}
use git_lfs_server.Database.Catalog.History.{
  History, start, nothing, links, verifies, announces, once, unchanged-History, History-trans,
}
use git_lfs_server.Database.Unchanged.{get_repo_object-IsUnchanged, get_object-IsUnchanged}
use git_lfs_server.Storage.{Proxier, Presigner, proxier, presigner, neither}
use git_lfs_server.Server.{
  Permission, Response, World, Params, Storages, Handler, in_db, in_store, repo_name_from_context,
  may_write, attempt, host_from_context,
}
use git_lfs_server.Server.Laws.{attempt_post}
use git_lfs_server.Iox.{Read}
use git_lfs_server.Iox.Accepts.{upload_copy}
use git_lfs_server.Server.Upload.{
  source_of, is_verified, serve_upload_proxy, serve_upload_presign, serve_upload,
}
use git_lfs_server.Server.Download.{serve_download}
use git_lfs_server.Server.Downloads.{serve_download-IsUnchanged}
use git_lfs_server.Server.Verify.{
  VerifyRequest, serve_verify, serve_verify_proxy, serve_verify_presign,
}

pub attempt-History :
    {mine : Str → Type 0} {S A : Type 0} (m : World S → Result A × World S)
    (fail : Error → Response) (go : A → Handler S) (w : World S)
    → ((a : A) (w' : World S) → History mine w'.db (go a w').1.db)
    → History mine w.db (m w).1.db
    → History mine w.db (attempt m fail go w).1.db
attempt-History {mine = mine} m fail go w next h =
    attempt_post (λ x. History mine w.db x.1.db) m fail go w
      (λ e w' k. subst (λ x. History mine w.db x.1.db) k h)
      (λ a w' k. History-trans (subst (λ x. History mine w.db x.1.db) k h) (next a w'))

-- Only for a repository that the caller may write to is anything stored.
abbrev pub May : Params → Permission → Str → Type 0
May c perm repo = (repo ≡ repo_name_from_context c) × (may_write perm ≡ true)

module _ {S : Type 0} (mine : Str → Type 0) (sha256 : List ℕ → List ℕ) (c : Params)
    (body : List Read) where
  serve_upload_proxy-History :
      (b : Proxier S) (size : ℤ) (w : World S)
      → mine (repo_name_from_context c)
      → History mine w.db (serve_upload_proxy sha256 c body b size w).1.db
  unfolding serve_upload_proxy
  serve_upload_proxy-History b size w m =
      attempt-History (in_store (b.put c.oid (source_of (upload_copy sha256 size c.oid body)))) _ _
        w
        (λ uri w'.
          attempt-History (in_db (link_object (repo_name_from_context c) c.oid size uri)) _ _ w'
            (λ stored w''. ground (arith, nothing mine w''.db))
            (once (links (repo_name_from_context c) c.oid size uri w'.db m)))
        start

  serve_upload_presign-History :
      (b : Presigner S) (size : ℤ) (w : World S)
      → History mine w.db (serve_upload_presign sha256 c body b size w).1.db
  unfolding serve_upload_presign
  serve_upload_presign-History b size w =
      attempt-History _ _ _ w
        (λ o w'. elim (Bool-cases (is_verified o)) [
          | inl e ↦ rw e start
          | inr e ↦ rw e (
              attempt-History (in_db (insert_pending_object c.oid)) _ _ w'
                (λ u w''.
                  attempt-History (in_store (b.presign_put c.oid size)) _ _ w'' (λ p w₃. start)
                    start)
                (once (announces c.oid w'.db)))
        ])
        (unchanged-History w.db _ (get_object-IsUnchanged c.oid w.db))

module _ {S : Type 0} (mine : Str → Type 0) (c : Params) (req : VerifyRequest) where
  serve_verify_proxy-History : (w : World S) → History mine w.db (serve_verify_proxy c req w).1.db
  unfolding serve_verify_proxy
  serve_verify_proxy-History w =
      attempt-History (in_db (get_repo_object_by_oid (repo_name_from_context c) req.oid)) _ _ w
        (λ o w'. ground (arith, nothing mine w'.db))
        (unchanged-History w.db _
          (get_repo_object-IsUnchanged (repo_name_from_context c) req.oid w.db))

  serve_verify_presign-History :
      (b : Presigner S) (w : World S)
      → mine (repo_name_from_context c)
      → History mine w.db (serve_verify_presign c req b w).1.db
  unfolding serve_verify_presign
  serve_verify_presign-History b w m =
      attempt-History (in_store (b.head (b.uri req.oid))) _ _ w
        (λ size w'. elim (Bool-cases (is (dec_ℤ size req.size))) [
          | inr e ↦ rw e start
          | inl e ↦ rw e (
              attempt-History
                (in_db (verify_object (repo_name_from_context c) req.oid req.size (b.uri req.oid)))
                _ _ w' (λ stored w''. ground (arith, nothing mine w''.db))
                (once
                  (verifies (repo_name_from_context c) req.oid req.size (b.uri req.oid) w'.db m)))
        ])
        start

module _ {S : Type 0} (c : Params) (storages : Storages S) (perm : Permission) where
  pub serve_upload-History :
      (sha256 : List ℕ → List ℕ) (body : List Read) (limit size : ℤ) (w : World S)
      → History (May c perm) w.db (serve_upload sha256 c body storages limit perm size w).1.db
  unfolding serve_upload
  serve_upload-History sha256 body limit size w = elim (Bool-cases (may_write perm)) [
    | inr e ↦ rw e start
    | inl e ↦ elim (Option-cases (storages (host_from_context c))) [
      | inl k ↦ ground (arith, nothing (May c perm) w.db)
      | inr (proxier b, k) ↦ ground (
        arith,
        nothing (May c perm) w.db,
        serve_upload_proxy-History (May c perm) sha256 c body b size w (refl, e),
      )
      | inr (presigner b, k) ↦ ground (
        arith,
        nothing (May c perm) w.db,
        serve_upload_presign-History (May c perm) sha256 c body b size w,
      )
      | inr (neither b, k) ↦ ground (arith, nothing (May c perm) w.db)
    ]
  ]

  pub serve_verify-History :
      (decoded : Option VerifyRequest) (w : World S)
      → History (May c perm) w.db (serve_verify c storages perm decoded w).1.db
  unfolding serve_verify
  serve_verify-History none w = ground (arith, nothing (May c perm) w.db)
  serve_verify-History (some req) w = elim (Bool-cases (may_write perm)) [
    | inr e ↦ rw e start
    | inl e ↦ elim (Option-cases (storages (host_from_context c))) [
      | inl k ↦ ground (arith, nothing (May c perm) w.db)
      | inr (proxier b, k) ↦
          ground (arith, nothing (May c perm) w.db, serve_verify_proxy-History (May c perm) c req w)
      | inr (presigner b, k) ↦ ground (
        arith,
        nothing (May c perm) w.db,
        serve_verify_presign-History (May c perm) c req b w (refl, e),
      )
      | inr (neither b, k) ↦ ground (arith, nothing (May c perm) w.db)
    ]
  ]

  pub serve_download-History :
      (w : World S) → History (May c perm) w.db (serve_download c storages perm w).1.db
  serve_download-History w = unchanged-History w.db _ (serve_download-IsUnchanged c storages perm w)
