-- ===== src/App.antt =====
-- cmd/lfsd/main.go: the routes, the middleware before them, and the janitor beside them. Matching a
-- path against the routes is flamego's: a request comes with the route that it has matched.
pub mod Access
pub mod Reach
pub mod Start
pub mod Ready
pub mod Backed
pub mod Steps
use git_lfs_server.Base.{ℕ, Bool, Option, List, [], ◌∷◌}
use git_lfs_server.Base.Int.{ℤ}
use git_lfs_server.Base.Text.{Str, str}
use git_lfs_server.Error.{Result, ok, err}
use git_lfs_server.Database.Schema.{Db, Object}
use git_lfs_server.Database.Exec.{Exec, query}
use git_lfs_server.Iox.{Read}
use git_lfs_server.Storage.{Backend}
use git_lfs_server.Server.{
  Response, World, Params, Storages, Handler, Permission, content, message, status_text, in_db,
  attempt, respond,
}
use git_lfs_server.Server.Batch.{BatchRequest, BatchConfig, serve_batch}
use git_lfs_server.Server.Upload.{serve_upload}
use git_lfs_server.Server.Download.{serve_download}
use git_lfs_server.Server.Verify.{VerifyRequest, serve_verify}
use git_lfs_server.Auth.{Cache, Forges, Verdict, passed, answered, authorize}
use git_lfs_server.Janitor.{sweep}

-- DB.Ping: it sends one statement.
unfoldable pub ping : Exec (Unit {0})
ping = query (λ _. tt)

-- What http.Error writes.
abbrev pub http_error : ℕ → Response
http_error code = record {
  code = code;
  headers =
      (str "Content-Type", str "text/plain; charset=utf-8")
      ∷ (str "X-Content-Type-Options", str "nosniff")
      ∷ [];
  body = message (status_text code);
}

-- serveHealthz
unfoldable pub serve_healthz : {S : Type 0} → Handler S
serve_healthz =
    attempt (in_db ping) (λ e. http_error 503)
      (λ u. respond (record { code = 200; headers = []; body = content (str "ok") }))

-- The routes of the group, each with what its handler reads of the request.
pub data Call : Type 0 where
  -- f.Post("/batch"), with the header Authorization
  post_batch : Str → Option BatchRequest → Call
  -- f.Get("/{oid}")
  get_object : Call
  -- f.Put("/{oid}"), with ContentLength
  put_object : ℤ → List Read → Call
  -- f.Post("/verify")
  post_verify : Option VerifyRequest → Call

pub record Request : Type 0 where
  pub params : Params
  pub basic_auth : Option (Str × Str)
  pub call : Call

-- What main has loaded: the forges, the storages and the settings of the server.
pub record Lfsd (S A : Type 0) : Type 0 where
  pub forges : Forges A
  pub storages : Storages S
  pub config : BatchConfig
  pub sha256 : List ℕ → List ℕ
  pub cache : Cache A

pub record State (S A : Type 0) : Type 0 where
  pub world : World S
  pub net : A

module _ {S A : Type 0} (site : Lfsd S A) where
  abbrev pub handle : Params → Permission → Call → Handler S
  handle c perm (post_batch authz decoded) = serve_batch site.config c perm authz decoded
  handle c perm get_object = serve_download c site.storages perm
  handle c perm (put_object size body) =
      serve_upload site.sha256 c body site.storages site.config.max_object_size perm size
  handle c perm (post_verify decoded) = serve_verify c site.storages perm decoded

  abbrev pub permission : Request → State S A → Verdict × A
  permission req st = authorize site.sha256 site.cache site.forges req.params req.basic_auth st.net

  abbrev pub handled : Request → Verdict × A → World S → Response × State S A
  handled req (answered r, net) w = (r, record { world = w; net = net })
  handled req (passed perm, net) w =
      let (r, w') = handle req.params perm req.call w in (r, record { world = w'; net = net })

  -- f.Group("/{host}/{**}/info/lfs/objects", …, authorize(config.Forges))
  unfoldable pub serve : Request → State S A → Response × State S A
  serve req st = handled req (permission req st) st.world
