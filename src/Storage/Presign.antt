-- ===== src/Storage/Presign.antt =====
-- internal/storage/s3_presign.go. The client of the S3 service is a parameter.
pub mod Base64
pub mod Keys
use git_lfs_server.Base.{ℕ, Bool, Option, none, some, List, [], ◌∷◌, ◌++◌, is, if◌then◌else◌}
use git_lfs_server.Base.Int.{ℤ, pos, negsuc}
use git_lfs_server.Base.Text.{Str, dec_str, str, cut, cut_prefix, is_empty}
use git_lfs_server.Error.{Error, Result, ok, err, other, storage_not_found}
use git_lfs_server.Iox.Hex.{hex_decode}
use git_lfs_server.Storage.{Base, Presigner, Headers}
use git_lfs_server.Storage.Decimal.{format_int}
use Base64.{base64_encode}

-- What HeadObject gives: types.NotFound, another error, or the ContentLength, which may be nil.
pub data Head : Type 0 where
  not_found failed : Head
  length_is : Option ℤ → Head

-- s3.Client and s3.PresignClient; a bucket and a key, and for a PUT the length and the checksum.
-- `none` is an error.
pub record S3Client (S : Type 0) : Type 0 where
  pub presign_put_object : Str → Str → ℤ → Str → S → Option Str × S
  pub presign_get_object : Str → Str → S → Option Str × S
  pub head_object : Str → Str → S → Head × S
  pub delete_object : Str → Str → S → Bool × S

pub record S3PresignBackend (S : Type 0) : Type 0 where
  pub name : Str
  pub scheme : Str
  pub bucket : Str
  pub client : S3Client S

-- The checks of NewS3PresignBackend; `endpoint_ok` tells whether url.Parse accepts the endpoint.
unfoldable pub new_s3_presign_backend :
    {S : Type 0}
    → (Str → Bool)
    → S3Client S
    → Str
    → Str
    → Str
    → Str
    → Str
    → Str
    → Result (S3PresignBackend S)
new_s3_presign_backend endpoint_ok client name scheme bucket access_key_id secret_access_key
      endpoint =
    if is_empty bucket
    then err (other "BUCKET is required")
    else if is_empty access_key_id
    then err (other "ACCESS_KEY_ID is required")
    else if is_empty secret_access_key
    then err (other "SECRET_ACCESS_KEY is required")
    else if is_empty endpoint
    then err (other "ENDPOINT is required")
    else if endpoint_ok endpoint
    then ok (record { name = name; scheme = scheme; bucket = bucket; client = client })
    else err (other "parse endpoint")

module _ {S : Type 0} (b : S3PresignBackend S) where
  -- URI
  unfoldable pub uri : Str → Str
  uri oid = b.scheme ++ (b.bucket ++ b'/' ∷ oid)

  abbrev pub key_of : Option (Str × Str) → Result Str
  key_of none = err (other "uri is missing a key")
  key_of (some (bucket, key)) =
      if is_empty key
      then err (other "uri is missing a key")
      else if is (dec_str bucket b.bucket)
      then ok key
      else err (other "uri references another bucket")

  abbrev pub key_from_rest : Option Str → Result Str
  key_from_rest none = err (other "uri does not have scheme")
  key_from_rest (some rest) = key_of (cut b'/' rest)

  -- keyFromURI
  unfoldable pub key_from_uri : Str → Result Str
  key_from_uri u = key_from_rest (cut_prefix u b.scheme)

  abbrev presigned : Option Str × S → Result Str × S
  presigned (none, s) = (err (other "presign object"), s)
  presigned (some url, s) = (ok url, s)

  abbrev checksum_header : Str
  checksum_header = str "x-amz-checksum-sha256"

  abbrev put_headers : Str → ℤ → Headers
  put_headers checksum size =
      (checksum_header, checksum) ∷ (str "Content-Length", format_int size) ∷ []

  abbrev with_headers : Headers → Result Str × S → Result (Str × Headers) × S
  with_headers hs (err e, s) = (err e, s)
  with_headers hs (ok url, s) = (ok (url, hs), s)

  abbrev presign_checked : Str → ℤ → Option (List ℕ) → S → Result (Str × Headers) × S
  presign_checked oid size none s = (err (other "decode oid"), s)
  presign_checked oid size (some raw) s =
      with_headers (put_headers (base64_encode raw) size)
        (presigned (b.client.presign_put_object b.bucket oid size (base64_encode raw) s))

  -- PresignPut
  unfoldable pub presign_put : Str → ℤ → S → Result (Str × Headers) × S
  presign_put oid size s = presign_checked oid size (hex_decode oid) s

  abbrev at_key : {A : Type 0} → Result Str → (Str → S → Result A × S) → S → Result A × S
  at_key (ok key) f s = f key s
  at_key (err e) f s = (err e, s)

  -- PresignGet
  unfoldable pub presign_get : Str → S → Result Str × S
  presign_get u =
      at_key (key_from_uri u) (λ key s. presigned (b.client.presign_get_object b.bucket key s))

  abbrev head_size : Head × S → Result ℤ × S
  head_size (not_found, s) = (err storage_not_found, s)
  head_size (failed, s) = (err (other "head object"), s)
  head_size (length_is none, s) = (err (other "missing Content-Length"), s)
  head_size (length_is (some n), s) = (ok n, s)

  -- Head
  unfoldable pub head : Str → S → Result ℤ × S
  head u = at_key (key_from_uri u) (λ key s. head_size (b.client.head_object b.bucket key s))

  abbrev deleted : Bool × S → Option Error × S
  deleted (done, s) = ((if done then none else some (other "delete object")), s)

  abbrev delete_at : Result Str → S → Option Error × S
  delete_at (ok key) s = deleted (b.client.delete_object b.bucket key s)
  delete_at (err e) s = (some e, s)

  -- Delete
  unfoldable pub delete : Str → S → Option Error × S
  delete u s = delete_at (key_from_uri u) s

  -- *S3PresignBackend is a Presigner.
  unfoldable pub s3_presigner : Presigner S
  s3_presigner = record {
    base = record { name = b.name; kind = str "s3-presign"; scheme = b.scheme; delete = delete };
    uri = uri;
    presign_put = presign_put;
    presign_get = presign_get;
    head = head;
  }
