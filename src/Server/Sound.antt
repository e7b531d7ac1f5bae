-- ===== src/Server/Sound.antt =====
-- Every handler keeps the tables sound, whatever it answers and whichever calls fail.
use git_lfs_server.Base.{ℕ, Option, List}
use git_lfs_server.Base.Int.{ℤ}
use git_lfs_server.Base.Text.{Str}
use git_lfs_server.Database.Invariant.{IsSound}
use git_lfs_server.Database.Catalog.History.{History-IsSound}
use git_lfs_server.Iox.{Read}
use git_lfs_server.Server.{Permission, World, Params, Storages}
use git_lfs_server.Server.Batch.{BatchRequest, BatchConfig, serve_batch}
use git_lfs_server.Server.Upload.{serve_upload}
use git_lfs_server.Server.Verify.{VerifyRequest, serve_verify}
use git_lfs_server.Server.History.{serve_upload-History, serve_verify-History}
use git_lfs_server.Server.Batch.History.{serve_batch-History}

-- serveBatch keeps the tables sound.
pub serve_batch-IsSound :
    {S : Type 0} (config : BatchConfig) (c : Params) (perm : Permission) (authz : Str)
    (decoded : Option BatchRequest) (w : World S)
    → IsSound w.db
    → IsSound (serve_batch config c perm authz decoded w).1.db
serve_batch-IsSound config c perm authz decoded w s =
    History-IsSound (serve_batch-History config c perm authz decoded w) s

-- serveUpload keeps the tables sound.
pub serve_upload-IsSound :
    {S : Type 0} (sha256 : List ℕ → List ℕ) (c : Params) (body : List Read) (storages : Storages S)
    (limit : ℤ) (perm : Permission) (size : ℤ) (w : World S)
    → IsSound w.db
    → IsSound (serve_upload sha256 c body storages limit perm size w).1.db
serve_upload-IsSound sha256 c body storages limit perm size w s =
    History-IsSound (serve_upload-History c storages perm sha256 body limit size w) s

-- serveVerify keeps the tables sound.
pub serve_verify-IsSound :
    {S : Type 0} (c : Params) (storages : Storages S) (perm : Permission)
    (decoded : Option VerifyRequest) (w : World S)
    → IsSound w.db
    → IsSound (serve_verify c storages perm decoded w).1.db
serve_verify-IsSound c storages perm decoded w s =
    History-IsSound (serve_verify-History c storages perm decoded w) s
