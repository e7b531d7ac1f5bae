-- ===== src/Tests/Uploads.antt =====
-- Uploads at a concrete input.
use git_lfs_server.Base.{◌≡◌, ◌≢◌, refl, none, some, [], ◌∷◌, arith}
use git_lfs_server.Base.Int.{ℤ, pos}
use git_lfs_server.Base.Text.{str}
use git_lfs_server.Server.{write, read, Response}
use git_lfs_server.Server.Upload.{serve_upload}
use git_lfs_server.Server.Accepted.{IsAccepted, serve_upload-IsAccepted}
use git_lfs_server.Server.Stored.{Keeps, serve_upload-stored}
use git_lfs_server.Storage.Filesystem.{storage_path, temp_path}
use git_lfs_server.Tests.{digest, oid, body, params, backend, host_ok, storages, world}

-- The upload of the three bytes.
pub uploaded_code :
    (serve_upload digest params body storages (pos 0) write (pos 3) world).0.code ≡ 204
unfolding git_lfs_server.Effect.◌>>=◌ git_lfs_server.Effect.deferred git_lfs_server.Iox.exact_read
    git_lfs_server.Iox.sha256_read git_lfs_server.Iox.copy git_lfs_server.Iox.body_read
    git_lfs_server.Server.matches_oid git_lfs_server.Server.exceeds git_lfs_server.Server.attempt
    git_lfs_server.Base.Text.dec_str git_lfs_server.Base.Text.str
    git_lfs_server.Base.Text.has_prefix git_lfs_server.Base.Int.dec_ℤ git_lfs_server.Base.Int.add64
    git_lfs_server.Server.Upload.serve_upload_proxy git_lfs_server.Server.Upload.serve_upload
    git_lfs_server.Database.Objects.deref git_lfs_server.Database.Objects.attach
    git_lfs_server.Database.Objects.stored_uri git_lfs_server.Database.Objects.link_body
    git_lfs_server.Database.Objects.link_object git_lfs_server.Database.Statements.find
    git_lfs_server.Database.Statements.update_where git_lfs_server.Database.Statements.is_linked
    git_lfs_server.Database.Statements.upsert git_lfs_server.Database.Statements.insert_link
    git_lfs_server.Database.Statements.recount git_lfs_server.Database.Exec.◌>>=◌
    git_lfs_server.Database.Exec.query git_lfs_server.Database.Exec.command
    git_lfs_server.Database.Exec.bracketed git_lfs_server.Database.Exec.transaction
    git_lfs_server.Storage.Filesystem.storage_path git_lfs_server.Storage.Filesystem.uri_from_path
    git_lfs_server.Storage.Filesystem.syscall git_lfs_server.Storage.Filesystem.read_file
    git_lfs_server.Storage.Filesystem.no_write git_lfs_server.Storage.Filesystem.create_temp
    git_lfs_server.Storage.Filesystem.rename git_lfs_server.Storage.Filesystem.copy_to
    git_lfs_server.Storage.Filesystem.fill_temp git_lfs_server.Storage.Filesystem.put_new
    git_lfs_server.Storage.Filesystem.put git_lfs_server.Storage.Filesystem.filesystem_proxier
    git_lfs_server.Storage.FilePath.split_slash git_lfs_server.Storage.FilePath.resolve
    git_lfs_server.Storage.FilePath.resolve_all git_lfs_server.Storage.FilePath.render
    git_lfs_server.Storage.FilePath.clean git_lfs_server.Iox.Hex.hex_digit
    git_lfs_server.Iox.Hex.hex_encode git_lfs_server.Base.ℕ_discrete
uploaded_code = refl

path_differs : storage_path backend oid ≢ temp_path backend (str "1")
unfolding git_lfs_server.Base.Text.dec_str git_lfs_server.Base.Text.str
    git_lfs_server.Storage.Filesystem.storage_path git_lfs_server.Storage.FilePath.split_slash
    git_lfs_server.Storage.FilePath.resolve git_lfs_server.Storage.FilePath.resolve_all
    git_lfs_server.Storage.FilePath.render git_lfs_server.Storage.FilePath.clean
    git_lfs_server.Base.ℕ_discrete
path_differs h = cc

serve_upload-IsAccepted_example : IsAccepted host_ok [] digest params body backend (pos 3) world
serve_upload-IsAccepted_example =
    serve_upload-IsAccepted host_ok [] digest params body backend storages (pos 0) write (pos 3)
      world refl (omega arith) (path_differs, tt) uploaded_code

serve_upload-stored_example :
    Keeps params oid
      (pos 3)
      (serve_upload digest params body storages (pos 0) write (pos 3) world).1
serve_upload-stored_example =
    serve_upload-stored digest params body storages (pos 0) write (pos 3) world uploaded_code
