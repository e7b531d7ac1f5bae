-- ===== src/App/Steps.antt =====
-- cmd/lfsd/main.go: what one request does to the database.
use git_lfs_server.Base.{◌≡◌, refl, ap, true, arith}
use git_lfs_server.Base.Text.{Str}
use git_lfs_server.Database.Exec.{query}
use git_lfs_server.Database.Catalog.History.{History, nothing, unchanged-History, History-mono}
use git_lfs_server.Server.{Permission, World, Params, repo_name_from_context, may_write, attempt}
use git_lfs_server.Server.History.{
  May, serve_upload-History, serve_download-History, serve_verify-History,
}
use git_lfs_server.Server.Batch.History.{serve_batch-History}
use git_lfs_server.Auth.{Verdict, passed, answered}
use git_lfs_server.App.{
  Lfsd, State, Request, Call, post_batch, get_object, put_object, post_verify, handle, handled,
  permission, serve, serve_healthz, ping,
}

module _ {S A : Type 0} (site : Lfsd S A) where
  -- The middleware grants the request write access to its repository.
  abbrev pub Grants : Request → State S A → Str → Type 0
  Grants req st repo =
      (perm : Permission) × ((permission site req st).0 ≡ passed perm)
      × (repo ≡ repo_name_from_context req.params)
      × (may_write perm ≡ true)

  handle-History :
      (c : Params) (perm : Permission) (call : Call) (w : World S)
      → History (May c perm) w.db (handle site c perm call w).1.db
  handle-History c perm (post_batch authz decoded) w =
      serve_batch-History site.config c perm authz decoded w
  handle-History c perm get_object w = serve_download-History c site.storages perm w
  handle-History c perm (put_object size body) w =
      serve_upload-History c site.storages perm site.sha256 body site.config.max_object_size size w
  handle-History c perm (post_verify decoded) w =
      serve_verify-History c site.storages perm decoded w

  -- A request works on the database by the operations of internal/database/objects.go only, and
  -- stores objects only for its repository, and only if the middleware grants write access to it.
  pub serve-History :
      (req : Request) (st : State S A)
      → History (Grants req st) st.world.db (serve site req st).1.world.db
  unfolding serve
  serve-History req st = go (permission site req st) refl
    where
      go :
          (v : Verdict × A)
          → permission site req st ≡ v
          → History (Grants req st) st.world.db (handled site req v st.world).1.world.db
      go (answered r, net) e = nothing (Grants req st) st.world.db
      go (passed perm, net) e =
          History-mono (λ repo m. (perm, ap (λ v. v.0) e, m.0, m.1))
            (handle-History req.params perm req.call st.world)

pub ping-History :
    {S : Type 0} (mine : Str → Type 0) (w : World S) → History mine w.db (serve_healthz w).1.db
unfolding serve_healthz attempt ping query
ping-History mine w = unchanged-History w.db _ (ground arith)
