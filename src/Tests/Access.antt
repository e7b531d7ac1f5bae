-- ===== src/Tests/Access.antt =====
-- Authorization, sweeps, uploads' bodies, keys and batches at concrete inputs.
use git_lfs_server.Base.{
  ℕ, ◌≡◌, ◌↔◌, ◌<◌, ◌≤◌, ◌+◌, ◌⊎◌, ◌↔◌, ◌^◌, refl, none, some, List, [], ◌∷◌, ◌++◌, true, false,
  arith, is_some, All, Bool, map, all, length, Option, ◌≢◌,
}
use git_lfs_server.Base.Int.{ℤ, pos}
use git_lfs_server.Base.Text.{Str, str, is_empty}
use git_lfs_server.Error.{ok, size_mismatch}
use git_lfs_server.Forge.{
  RepoAllowlist, Provider, new_repo_allowlist, allow, normalized, skip_auth_provider,
}
use git_lfs_server.Forge.Allowlist.Entries.{IsPermitted, new_repo_allowlist-IsPermitted}
use git_lfs_server.Auth.{
  Cache, Cached, hit, miss, Forges, Verdict, passed, authorize, auth_cache_ttl, auth_cache_ttl_max,
  auth_cache_ttl_margin,
}
use git_lfs_server.Auth.Keys.{Collision, auth_cache_key-apart}
use git_lfs_server.Auth.Allowed.{IsAllowed, authorize-IsAllowed}
use git_lfs_server.Auth.Ttl.{auth_cache_ttl-margin}
use git_lfs_server.Iox.Accepts.{
  upload_copy, IsAnnounced, upload_copy-accepts_iff, upload_copy-size_mismatch,
}
use git_lfs_server.Iox.Verdict.{delivered, final}
use git_lfs_server.Storage.{Proxier}
use git_lfs_server.Storage.Presign.{S3PresignBackend, S3Client, uri, key_from_uri, not_found}
use git_lfs_server.Storage.Presign.Keys.{key_from_uri-uri}
use git_lfs_server.Server.{
  Params, Permission, read, write, Response, World, Storages, batch, BatchResponseObject,
}
use git_lfs_server.Tests.{oid, digest, body}

ttl_eq : auth_cache_ttl (pos 600000000000) ≡ pos 300000000000
unfolding auth_cache_ttl
ttl_eq = refl

auth_cache_ttl-margin_example :
    (0 < 300000000000)
    × (300000000000 ≤ auth_cache_ttl_max)
    × (300000000000 + auth_cache_ttl_margin ≤ 600000000000)
auth_cache_ttl-margin_example = auth_cache_ttl-margin 600000000000 300000000000 (omega arith) ttl_eq

abbrev entries : List Str
entries = str " Org/** " ∷ [] ∷ str "a/b" ∷ []

abbrev compiled : RepoAllowlist
compiled = record { exact = str "a/b" ∷ []; prefixes = str "org/" ∷ [] }

compiled_eq : new_repo_allowlist entries ≡ ok (some compiled)
unfolding new_repo_allowlist git_lfs_server.Forge.add_entries
    git_lfs_server.Forge.parse_allowlist_entry git_lfs_server.Base.Text.dec_str
    git_lfs_server.Base.Text.str git_lfs_server.Base.Text.has_prefix
    git_lfs_server.Base.Text.cut_prefix git_lfs_server.Base.Text.contains
    git_lfs_server.Base.Text.cut_suffix git_lfs_server.Base.Text.is_empty
    git_lfs_server.Base.Text.to_lower git_lfs_server.Base.Text.lower
    git_lfs_server.Base.Text.trim_space git_lfs_server.Base.Text.trim_left
    git_lfs_server.Base.Text.is_space git_lfs_server.Base.ℕ_discrete
compiled_eq = refl

new_repo_allowlist-IsPermitted_example :
    (allow (some compiled) (str "org/x") ≡ true) ↔ IsPermitted entries (str "org/x")
new_repo_allowlist-IsPermitted_example =
    new_repo_allowlist-IsPermitted entries compiled (str "org/x") compiled_eq

abbrev cache : Cache (Unit {0})
cache = record { get = λ key a. (miss, a); set = λ key perm ttl a. a }

abbrev forges : Forges (Unit {0})
forges h = some (skip_auth_provider (some compiled))

abbrev request : Params
request = record { host = str "H"; path = str "Org/x"; oid = oid }

abbrev credentials : Option (Str × Str)
credentials = some (str "u", str "t")

request_passes : authorize digest cache forges request credentials tt ≡ (passed write, tt)
unfolding authorize skip_auth_provider allow git_lfs_server.Base.Text.dec_str
    git_lfs_server.Base.Text.str git_lfs_server.Base.Text.has_prefix
    git_lfs_server.Base.Text.cut_prefix git_lfs_server.Base.Text.is_empty
    git_lfs_server.Base.Text.to_lower git_lfs_server.Base.Text.lower git_lfs_server.Base.ℕ_discrete
    git_lfs_server.Server.host_from_context git_lfs_server.Auth.auth_cache_ttl
request_passes = refl

authorize-IsAllowed_example : IsAllowed digest cache forges request credentials tt write
authorize-IsAllowed_example =
    authorize-IsAllowed digest cache forges request credentials tt tt write request_passes

auth_cache_key-apart_example :
    ((str "h" ≡ str "h") × (str "r" ≡ str "r") × (str "u" ≡ str "u") × (str "t:x" ≡ str "t:x"))
    ⊎ Collision digest
unfolding str
auth_cache_key-apart_example =
    auth_cache_key-apart digest (str "h") (str "h") (str "r") (str "r") (str "u") (str "u")
      (str "t:x") (str "t:x") refl refl refl refl refl refl refl

upload_copy-accepts_iff_example :
    (upload_copy digest (pos 3) oid body ≡ some (7 ∷ 8 ∷ 9 ∷ [], none)) ↔ (
      (7 ∷ 8 ∷ 9 ∷ [] ≡ delivered body)
      × IsAnnounced digest (pos 3) oid (delivered body) (final body))
upload_copy-accepts_iff_example =
    upload_copy-accepts_iff digest (pos 3) oid body (7 ∷ 8 ∷ 9 ∷ []) (omega arith)

-- An S3 service that refuses everything.
abbrev client : S3Client (Unit {0})
client = record {
  presign_put_object = λ b k n c s. (none, s);
  presign_get_object = λ b k s. (none, s);
  head_object = λ b k s. (not_found, s);
  delete_object = λ b k s. (false, s);
}

abbrev bucket : S3PresignBackend (Unit {0})
bucket = record { name = []; scheme = str "s3://"; bucket = str "b"; client = client }

free : git_lfs_server.Base.Text.cut b'/' (str "b") ≡ none
unfolding git_lfs_server.Base.Text.cut str
free = refl

full : is_empty oid ≡ false
unfolding is_empty
full = refl

key_from_uri-uri_example : key_from_uri bucket (uri bucket oid) ≡ ok oid
key_from_uri-uri_example = key_from_uri-uri bucket oid free full

abbrev filled : Proxier (Unit {0})
filled = record {
  base = record { name = []; kind = []; scheme = str "fs://"; delete = λ u s. (none, s) };
  put = λ o s t. (ok [], t);
  open_uri = λ u s. (ok ([], none), s);
}

other_length : pos 4 ≢ pos (length (delivered body))
other_length h = cc

upload_copy-size_mismatch_example :
    (bytes : List ℕ) × (actual : ℤ) × (upload_copy digest (pos 4) oid body
      ≡ some (bytes, some (size_mismatch (pos 4) actual)))
upload_copy-size_mismatch_example =
    upload_copy-size_mismatch digest (pos 4) oid body (omega arith) refl other_length
