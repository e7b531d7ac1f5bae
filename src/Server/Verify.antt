-- ===== src/Server/Verify.antt =====
-- serveVerify, serveVerifyProxy and serveVerifyPresign of cmd/lfsd/lfs.go. Decoding the JSON body
-- is not modelled.
use git_lfs_server.Base.{Option, none, some, not, is, if◌then◌else◌}
use git_lfs_server.Base.Int.{ℤ, negsuc, dec_ℤ}
use git_lfs_server.Base.Text.{Str, str, dec_str}
use git_lfs_server.Error.{Error, storage_not_found}
use git_lfs_server.Database.Objects.{deref, get_repo_object_by_oid, verify_object}
use git_lfs_server.Storage.{Presigner, Backend, proxier, presigner, neither}
use git_lfs_server.Server.{
  Permission, may_write, text, invalid_json, Response, Params, host_from_context,
  repo_name_from_context, write_lfs_error, write_header, internal_error, matches_oid, Storages,
  Handler, respond, in_db, in_store, attempt, ignoring,
}
use git_lfs_server.Server.Download.{lookup_failed}

pub record VerifyRequest : Type 0 where
  pub oid : Str
  pub size : ℤ

abbrev pub head_failed : Error → Response
head_failed storage_not_found = write_lfs_error 422 (text (str "object does not exist in storage"))
head_failed e = internal_error

module _ {S : Type 0} (c : Params) (req : VerifyRequest) where
  abbrev pub compare_size : ℤ → Handler S → Handler S
  compare_size size go w =
      if is (dec_ℤ size req.size)
      then go w
      else (write_lfs_error 422 (text (str "size mismatch")), w)

  unfoldable pub serve_verify_proxy : Handler S
  serve_verify_proxy =
      attempt (in_db (get_repo_object_by_oid (repo_name_from_context c) req.oid)) lookup_failed
        (λ o. compare_size (deref o.size (negsuc 0)) (respond (write_header 204)))

  -- `if storedURI != uri`: the object at the URI that was not recorded goes.
  abbrev pub verified_at_uri : Presigner S → Str → Handler S
  verified_at_uri b stored w =
      if is (dec_str stored (b.uri req.oid))
      then respond (write_header 204) w
      else ignoring (in_store (b.base.delete (b.uri req.oid))) (respond (write_header 204)) w

  abbrev pub mark_head : Presigner S → Handler S
  mark_head b =
      attempt (in_db (verify_object (repo_name_from_context c) req.oid req.size (b.uri req.oid)))
        (λ e. internal_error) (verified_at_uri b)

  unfoldable pub serve_verify_presign : Presigner S → Handler S
  serve_verify_presign b =
      attempt (in_store (b.head (b.uri req.oid))) head_failed
        (λ size. compare_size size (mark_head b))

  abbrev pub verify_with : Option (Backend S) → Handler S
  verify_with none = respond internal_error
  verify_with (some (proxier b)) = serve_verify_proxy
  verify_with (some (presigner b)) = serve_verify_presign b
  verify_with (some (neither b)) = respond internal_error

module _ {S : Type 0} (c : Params) where
  abbrev verify_request : Storages S → Option VerifyRequest → Handler S
  verify_request storages none w = (write_lfs_error 400 invalid_json, w)
  verify_request storages (some req) w =
      if not (matches_oid req.oid)
      then (write_lfs_error 400 (text (str "invalid oid")), w)
      else verify_with c req (storages (host_from_context c)) w

  -- serveVerify; `none` is a body that is no JSON of a request, or is too long
  unfoldable pub serve_verify : Storages S → Permission → Option VerifyRequest → Handler S
  serve_verify storages perm decoded w =
      if not (may_write perm)
      then (write_lfs_error 403 (text (str "write permission required for verify")), w)
      else verify_request storages decoded w
