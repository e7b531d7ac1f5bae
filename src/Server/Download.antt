-- ===== src/Server/Download.antt =====
-- serveDownload, serveDownloadProxy and serveDownloadPresign of cmd/lfsd/lfs.go. A response that
-- streams has the bytes that the storage gave, if it gave as many as the Content-Length says and no
-- error; otherwise net/http or the end of the stream cuts the body off.
use git_lfs_server.Base.{◌||◌, not, Option, none, some, [], ◌∷◌, is, length, if◌then◌else◌}
use git_lfs_server.Base.Int.{ℤ, pos, negsuc, ltb_ℤ, dec_ℤ}
use git_lfs_server.Base.Text.{Str, str, is_empty}
use git_lfs_server.Error.{Error, object_not_found}
use git_lfs_server.Database.Schema.{Object}
use git_lfs_server.Database.Objects.{deref, get_repo_object_by_oid}
use git_lfs_server.Storage.{Source, Proxier, Presigner, Backend, proxier, presigner, neither}
use git_lfs_server.Storage.Decimal.{format_int}
use git_lfs_server.Server.{
  Permission, may_read, text, Body, content, cut_off, Response, Params, host_from_context,
  repo_name_from_context, write_lfs_error, internal_error, matches_oid, Storages, Handler, respond,
  in_db, in_store, attempt,
}
use git_lfs_server.Server.Upload.{with_location}

-- The answer to an error of GetRepoObjectByOID.
abbrev pub lookup_failed : Error → Response
lookup_failed object_not_found = write_lfs_error 404 (text (str "object does not exist"))
lookup_failed e = internal_error

abbrev pub with_length : ℤ → Body → Response
with_length size body = record {
  code = 200;
  headers =
      (str "Content-Type", str "application/octet-stream")
      ∷ (str "Content-Length", format_int size)
      ∷ [];
  body = body;
}

-- io.Copy to the response, whose error is only logged
abbrev pub sent : ℤ → Source → Body
sent size (bytes, none) = if is (dec_ℤ size (pos (length bytes))) then content bytes else cut_off
sent size (bytes, some e) = cut_off

abbrev pub streamed : ℤ → Source → Response
streamed size source = with_length size (sent size source)

module _ {S : Type 0} (c : Params) where
  unfoldable pub serve_download_proxy : Proxier S → Str → ℤ → Handler S
  serve_download_proxy b uri size =
      attempt (in_store (b.open_uri uri)) (λ e. internal_error)
        (λ source. respond (streamed size source))

  unfoldable pub serve_download_presign : Presigner S → Str → Handler S
  serve_download_presign b uri =
      attempt (in_store (b.presign_get uri)) (λ e. internal_error)
        (λ url. respond (with_location url []))

  abbrev download_from : Backend S → Str → ℤ → Handler S
  download_from (proxier b) uri size = serve_download_proxy b uri size
  download_from (presigner b) uri size = serve_download_presign b uri
  download_from (neither b) uri size = respond internal_error

  abbrev pub download_row : Backend S → Object → Handler S
  download_row b o w =
      if is_empty (deref o.object_uri []) || ltb_ℤ (deref o.size (negsuc 0)) (pos 0)
      then respond internal_error w
      else download_from b (deref o.object_uri []) (deref o.size (negsuc 0)) w

  abbrev pub download : Option (Backend S) → Handler S
  download none = respond internal_error
  download (some b) =
      attempt (in_db (get_repo_object_by_oid (repo_name_from_context c) c.oid)) lookup_failed
        (download_row b)

  -- serveDownload
  unfoldable pub serve_download : Storages S → Permission → Handler S
  serve_download storages perm w =
      if not (may_read perm)
      then (write_lfs_error 403 (text (str "read permission required for download")), w)
      else if not (matches_oid c.oid)
      then (write_lfs_error 400 (text (str "invalid oid")), w)
      else download (storages (host_from_context c)) w
