-- ===== src/Server/Upload.antt =====
-- serveUpload, serveUploadProxy and serveUploadPresign of cmd/lfsd/lfs.go.
use git_lfs_server.Base.{
  ℕ, Bool, false, not, Option, none, some, List, [], ◌∷◌, ◌++◌, is, is_some, if◌then◌else◌,
}
use git_lfs_server.Base.Int.{ℤ, pos, ltb_ℤ}
use git_lfs_server.Base.Text.{Str, str, dec_str}
use git_lfs_server.Error.{
  Error, Result, ok, err, object_not_found, size_mismatch, sha256_mismatch, other,
}
use git_lfs_server.Database.Schema.{Object}
use git_lfs_server.Database.Objects.{get_object_by_oid, insert_pending_object, link_object}
use git_lfs_server.Iox.{Read}
use git_lfs_server.Iox.Accepts.{upload_copy}
use git_lfs_server.Storage.{
  Source, Headers, Proxier, Presigner, Backend, proxier, presigner, neither,
}
use git_lfs_server.Server.{
  Permission, may_write, text, error_text, exceeds_limit, empty, Response, World, Params,
  host_from_context, repo_name_from_context, write_lfs_error, write_header, internal_error,
  matches_oid, exceeds, Storages, Handler, respond, in_db, in_store, attempt, ignoring,
}

-- What io.Copy from the reader gives. `none` would be a copy that does not end, which does not
-- happen.
abbrev pub source_of : Option (List ℕ × Option Error) → Source
source_of none = ([], some (other "copy does not end"))
source_of (some copied) = copied

-- The switch on the error of Put.
abbrev pub put_failed : Error → Response
put_failed (size_mismatch n m) = write_lfs_error 422 (error_text (size_mismatch n m))
put_failed (sha256_mismatch s t) = write_lfs_error 422 (error_text (sha256_mismatch s t))
put_failed e = internal_error

abbrev pub with_location : Str → Headers → Response
with_location url headers = record {
  code = 307;
  headers = headers ++ (str "Location", url) ∷ [];
  body = empty;
}

-- `existing != nil && existing.VerifiedAt != nil`, and nil for ErrObjectNotFound
abbrev pub existing : Result Object → Result (Option Object)
existing (ok o) = ok (some o)
existing (err object_not_found) = ok none
existing (err e) = err e

abbrev pub is_verified : Option Object → Bool
is_verified none = false
is_verified (some o) = is_some o.verified_at

module _ {S : Type 0} (sha256 : List ℕ → List ℕ) (c : Params) (body : List Read) where
  -- `if storedURI != uri`: the object that was stored in vain goes.
  abbrev pub stored_at : Proxier S → Str → Str → Handler S
  stored_at b uri stored w =
      if is (dec_str stored uri)
      then respond (write_header 204) w
      else ignoring (in_store (b.base.delete uri)) (respond (write_header 204)) w

  unfoldable pub serve_upload_proxy : Proxier S → ℤ → Handler S
  serve_upload_proxy b size =
      attempt (in_store (b.put c.oid (source_of (upload_copy sha256 size c.oid body)))) put_failed
        (λ uri.
          attempt (in_db (link_object (repo_name_from_context c) c.oid size uri))
            (λ e. internal_error) (λ stored. stored_at b uri stored))

  abbrev look_up_object : World S → Result (Option Object) × World S
  look_up_object w = let (r, w') = in_db (get_object_by_oid c.oid) w in (existing r, w')

  abbrev pub presign_pending : Presigner S → ℤ → Handler S
  presign_pending b size =
      attempt (in_db (insert_pending_object c.oid)) (λ e. internal_error)
        (λ u.
          attempt (in_store (b.presign_put c.oid size)) (λ e. internal_error)
            (λ p. respond (with_location p.0 p.1)))

  unfoldable pub serve_upload_presign : Presigner S → ℤ → Handler S
  serve_upload_presign b size =
      attempt look_up_object (λ e. internal_error)
        (λ o w. if is_verified o then respond (write_header 200) w else presign_pending b size w)

  abbrev upload_to : ℤ → Option (Backend S) → Handler S
  upload_to size none = respond internal_error
  upload_to size (some (proxier b)) = serve_upload_proxy b size
  upload_to size (some (presigner b)) = serve_upload_presign b size
  upload_to size (some (neither b)) = respond internal_error

  -- serveUpload; `size` is the request's ContentLength
  unfoldable pub serve_upload : Storages S → ℤ → Permission → ℤ → Handler S
  serve_upload storages max_object_size perm size w =
      if not (may_write perm)
      then (write_lfs_error 403 (text (str "write permission required for upload")), w)
      else if not (matches_oid c.oid)
      then (write_lfs_error 400 (text (str "invalid oid")), w)
      else if ltb_ℤ size (pos 0)
      then (write_lfs_error 411 (text (str "Content-Length is required")), w)
      else if exceeds max_object_size size
      then (write_lfs_error 413 (exceeds_limit size max_object_size), w)
      else upload_to size (storages (host_from_context c)) w
