-- ===== src/Server/Batch.antt =====
-- serveBatch of cmd/lfsd/lfs.go. Decoding the JSON body and encoding the answer are not modelled.
pub mod Answers
pub mod Served
pub mod History
pub mod Offers
use git_lfs_server.Base.{
  ℕ, Bool, true, false, not, Option, none, some, List, [], ◌∷◌, map, is, if◌then◌else◌,
}
use git_lfs_server.Base.Int.{ℤ, negsuc, dec_ℤ}
use git_lfs_server.Base.Text.{Str, str, dec_str, is_empty}
use git_lfs_server.Error.{Result, ok, err}
use git_lfs_server.Database.Schema.{Object, Db}
use git_lfs_server.Database.Exec.{Exec, pure}
use git_lfs_server.Database.Objects.{
  deref, ObjectMap, get_objects_by_oids, get_repo_objects_by_oids, link_object,
}
use git_lfs_server.Iox.Hex.{hex_decode}
use git_lfs_server.Storage.{Headers}
use git_lfs_server.Storage.Presign.Base64.{base64_encode}
use git_lfs_server.Server.{
  Permission, may_read, may_write, Message, text, invalid_json, invalid_oid, exceeds_limit,
  BatchAction, BatchResponseObject, batch, Response, Params, media_type_lfs, repo_name_from_context,
  write_lfs_error, matches_oid, exceeds, object_href, verify_href, Handler, respond, in_db, attempt,
}

pub record BatchObject : Type 0 where
  pub oid : Str
  pub size : ℤ

pub record BatchRequest : Type 0 where
  pub operation : Str
  pub transfers : List Str
  pub objects : List BatchObject

-- The arguments of serveBatch.
pub record BatchConfig : Type 0 where
  pub external_url : Str
  pub max_object_size : ℤ

-- The operations, as the switch on req.Operation tells them apart.
pub data Operation : Type 0 where
  upload download unknown : Operation

unfoldable pub operation_of : Str → Operation
operation_of s =
    if is (dec_str s (str "upload"))
    then upload
    else if is (dec_str s (str "download"))
    then download
    else unknown

-- slices.Contains
unfoldable pub slices_contains : List Str → Str → Bool
slices_contains [] s = false
slices_contains (x ∷ xs) s =
    let rest = slices_contains xs s in if is (dec_str x s) then true else rest

-- `Authorization` of the request, if it is set, sent along with every action
abbrev pub auth_header : Str → Headers
auth_header authz = if is_empty authz then [] else (str "Authorization", authz) ∷ []

module _ (config : BatchConfig) (repo : Str) (authz : Str) where
  abbrev pub failing : BatchObject → ℕ → Message → BatchResponseObject
  failing o code msg = record { oid = o.oid; size = o.size; actions = []; error = some (code, msg) }

  abbrev pub acting : BatchObject → List (Str × BatchAction) → BatchResponseObject
  acting o actions = record { oid = o.oid; size = o.size; actions = actions; error = none }

  abbrev pub other_size : Str
  other_size = str "OID exists with different size"

  abbrev pub same_size : Object → BatchObject → Bool
  same_size found o = is (dec_ℤ (deref found.size (negsuc 0)) o.size)

  -- The case of operationDownload in the loop.
  unfoldable pub download_object : BatchObject → Option Object → BatchResponseObject
  download_object o none = failing o 404 (text (str "object does not exist"))
  download_object o (some found) =
      if same_size found o
      then acting o (
          (
            str "download",
            record {
              href = object_href config.external_url repo o.oid;
              header = auth_header authz;
            },
          )
          ∷ [])
      else failing o 422 (text other_size)

  abbrev pub upload_header : List ℕ → Headers
  upload_header raw = (str "x-amz-checksum-sha256", base64_encode raw) ∷ auth_header authz

  -- The default case of operationUpload: the object is not there yet.
  unfoldable pub offer : BatchObject → Option (List ℕ) → BatchResponseObject
  offer o none = failing o 400 (invalid_oid o.oid)
  offer o (some raw) = acting o (
      (
        str "upload",
        record { href = object_href config.external_url repo o.oid; header = upload_header raw },
      )
      ∷ (
        str "verify",
        record { href = verify_href config.external_url repo; header = auth_header authz },
      )
      ∷ [])

  abbrev linked_object : {A : Type 0} → BatchObject → Result A → BatchResponseObject
  linked_object o (ok a) = acting o []
  linked_object o (err e) = failing o 500 (text (str "failed to link object to repo"))

  abbrev attach_existing : BatchObject → Db → BatchResponseObject × Db
  attach_existing o db =
      let (r, db') = link_object repo o.oid o.size (str "ignored") db in (linked_object o r, db')

  abbrev pub upload_found : BatchObject → Option Object → Db → BatchResponseObject × Db
  upload_found o none db = (offer o (hex_decode o.oid), db)
  upload_found o (some found) db =
      if same_size found o then attach_existing o db else (failing o 409 (text other_size), db)

  -- The case of operationUpload in the loop.
  unfoldable pub upload_object : BatchObject → Option Object → Db → BatchResponseObject × Db
  upload_object o existing db =
      if exceeds config.max_object_size o.size
      then (failing o 413 (exceeds_limit o.size config.max_object_size), db)
      else upload_found o existing db

  -- One round of the loop.
  unfoldable pub batch_object : Operation → ObjectMap → BatchObject → Db → BatchResponseObject × Db
  batch_object upload existing o db = upload_object o (existing o.oid) db
  batch_object download existing o db = (download_object o (existing o.oid), db)
  batch_object unknown existing o db = (acting o [], db)

  -- The loop over req.Objects.
  unfoldable pub batch_objects :
      Operation → ObjectMap → List BatchObject → Db → List BatchResponseObject × Db
  batch_objects op existing [] db = ([], db)
  batch_objects op existing (o ∷ os) db =
      let (out, db') = batch_object op existing o db in
      let (outs, last) = batch_objects op existing os db' in (out ∷ outs, last)

abbrev pub oids : List BatchObject → List Str
oids os = map (λ o. o.oid) os

-- The switch that looks the objects up.
unfoldable pub look_up : Operation → Str → List Str → Exec ObjectMap
look_up upload repo keys = get_objects_by_oids keys
look_up download repo keys = get_repo_objects_by_oids repo keys
look_up unknown repo keys = pure (λ key. none)

-- The checks before the database is asked, each with its answer.
abbrev pub invalid_oids : List BatchObject → Option Message
invalid_oids [] = none
invalid_oids (o ∷ os) = if matches_oid o.oid then invalid_oids os else some (invalid_oid o.oid)

abbrev permission_refused : Operation → Permission → Option Response
permission_refused upload perm =
    if may_write perm
    then none
    else some (write_lfs_error 403 (text (str "write permission required for upload")))
permission_refused download perm =
    if may_read perm
    then none
    else some (write_lfs_error 403 (text (str "read permission required for download")))
permission_refused unknown perm =
    some (write_lfs_error 400 (text (str "operation must be \"upload\" or \"download\"")))

abbrev transfers_refused : List Str → Bool
transfers_refused [] = false
transfers_refused (t ∷ ts) = not (slices_contains (t ∷ ts) (str "basic"))

abbrev objects_refused : Option Message → Option Response
objects_refused none = none
objects_refused (some msg) = some (write_lfs_error 400 msg)

abbrev or_else : Option Response → Option Response → Option Response
or_else none k = k
or_else (some r) k = some r

unfoldable pub batch_refused : BatchRequest → Permission → Option Response
batch_refused req perm = or_else (permission_refused (operation_of req.operation) perm) (
    if transfers_refused req.transfers
    then some (write_lfs_error 422 (text (str "only \"basic\" transfer is supported")))
    else objects_refused (invalid_oids req.objects))

abbrev pub batch_response : List BatchResponseObject → Response
batch_response out = record {
  code = 200;
  headers = (str "Content-Type", media_type_lfs) ∷ [];
  body = batch out;
}

module _ {S : Type 0} (config : BatchConfig) (c : Params) (perm : Permission) (authz : Str) where
  abbrev pub answer : BatchRequest → ObjectMap → Handler S
  answer req existing w =
      let (out, db) =
        batch_objects config (repo_name_from_context c) authz (operation_of req.operation) existing
          req.objects w.db in
      (batch_response out, record w { db = db })

  -- serveBatch past the checks
  unfoldable pub process_batch : BatchRequest → Handler S
  process_batch req =
      attempt
        (in_db (look_up (operation_of req.operation) (repo_name_from_context c) (oids req.objects)))
        (λ _. write_lfs_error 500 (text (str "failed to process batch"))) (answer req)

  abbrev pub checked : BatchRequest → Option Response → Handler S
  checked req (some r) = respond r
  checked req none = process_batch req

  -- serveBatch; `none` is a body that is no JSON of a request, or is too long
  unfoldable pub serve_batch : Option BatchRequest → Handler S
  serve_batch none = respond (write_lfs_error 400 invalid_json)
  serve_batch (some req) = checked req (batch_refused req perm)
