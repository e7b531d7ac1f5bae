-- ===== src/Config.antt =====
-- cmd/lfsd/config.go: what loadConfig makes of the sections of storages and of forges, as the ini
-- parser gives them.
pub mod Pairing
pub mod Load
use git_lfs_server.Base.{
  ℕ, Bool, true, false, not, Option, none, some, List, [], ◌∷◌, is, is_some, if◌then◌else◌,
}
use git_lfs_server.Base.Int.{ℤ}
use git_lfs_server.Base.Text.{
  Str, str, dec_str, cut_prefix, cut_suffix, has_suffix, to_lower, is_empty,
}
use git_lfs_server.Error.{Error, Result, ok, err, other}
use git_lfs_server.Storage.Filesystem.{FilesystemBackend, new_filesystem_backend}
use git_lfs_server.Storage.Presign.{S3Client, S3PresignBackend, new_s3_presign_backend}
use git_lfs_server.Forge.{RepoAllowlist, Provider, new_repo_allowlist, skip_auth_provider, and_then}
use git_lfs_server.Forge.GitHub.{GithubReply, new_github_provider}
use git_lfs_server.Forge.GitLab.{new_gitlab_provider}

-- forge.Config
pub record ForgeConfig : Type 0 where
  pub kind : Str
  pub storage : Str
  pub skip_auth : Bool
  pub repo_allowlist : List Str

-- A section: its name, the text of a key, and MapTo of a forge.Config, where `none` is an error.
pub record Section : Type 0 where
  pub name : Str
  pub key : Str → Str
  pub mapped : Option ForgeConfig

-- The storage.Backend of a section, by its type.
pub data Configured (S : Type 0) : Type 0 where
  filesystem : FilesystemBackend → Configured S
  s3_presign : S3PresignBackend S → Configured S

abbrev pub entry {ℓ} : {A : Type ℓ} → Str → List (Str × A) → Option A
entry k [] = none
entry k ((k', a) ∷ rest) = if is (dec_str k' k) then some a else entry k rest

-- validateStorageScheme
unfoldable pub validate_storage_scheme : Str → Result (Unit {0})
validate_storage_scheme scheme =
    if is_empty scheme
    then err (other "SCHEME is required")
    else if has_suffix scheme (str "://")
    then ok tt
    else err (other "SCHEME must end with ://")

abbrev pub section_name : Option Str → Result Str
section_name none = err (other "malformed section name")
section_name (some name) = ok name

module _ {S N : Type 0} (cwd : Str) (endpoint_ok : Str → Bool) (client : S3Client S)
    (until : Str → Str → Option ℤ) (github : Str → Str → N → Option GithubReply × N)
    (gitlab : Str → Str → Str → N → Option ℕ × N) where
  -- The switch on TYPE.
  unfoldable pub init_storage : Str → Str → Section → Result (Configured S)
  init_storage name scheme s =
      if is (dec_str (s.key (str "TYPE")) (str "filesystem"))
      then and_then
          (new_filesystem_backend cwd name scheme (s.key (str "ROOT")) (s.key (str "TEMP_DIR")))
          (λ b. ok (filesystem b))
      else if is (dec_str (s.key (str "TYPE")) (str "s3-presign"))
      then and_then
          (new_s3_presign_backend endpoint_ok client name scheme (s.key (str "BUCKET"))
            (s.key (str "ACCESS_KEY_ID")) (s.key (str "SECRET_ACCESS_KEY"))
            (s.key (str "ENDPOINT")))
          (λ b. ok (s3_presign b))
      else err (other "missing or unknown TYPE")

  abbrev pub Backends : Type 0
  Backends = List (Str × Configured S)

  abbrev pub add_storage : Section → Backends → Str → Result Backends
  add_storage s bs name =
      if is_some (entry name bs)
      then err (other "duplicate storage configuration")
      else and_then (validate_storage_scheme (s.key (str "SCHEME")))
          (λ u. and_then (init_storage name (s.key (str "SCHEME")) s) (λ b. ok ((name, b) ∷ bs)))

  abbrev pub storage_section : Section → Backends → Option Str → Result Backends
  storage_section s bs none = ok bs
  storage_section s bs (some rest) =
      and_then (section_name (cut_suffix rest (str "\""))) (add_storage s bs)

  -- The loop over the storage sections.
  unfoldable pub load_storages : List Section → Backends → Result Backends
  load_storages [] bs = ok bs
  load_storages (s ∷ ss) bs =
      and_then (storage_section s bs (cut_prefix s.name (str "storage \""))) (load_storages ss)

  -- What the forges' sections fill in.
  pub record Hosts : Type 0 where
    pub forges : List (Str × Provider N)
    pub storages : List (Str × Configured S)

  -- The switch on SKIP_AUTH and on TYPE.
  unfoldable pub init_forge : Str → ForgeConfig → Option RepoAllowlist → Result (Provider N)
  init_forge host fc allowlist =
      if fc.skip_auth
      then ok (skip_auth_provider allowlist)
      else if is (dec_str fc.kind (str "github"))
      then ok (new_github_provider until github host allowlist)
      else if is (dec_str fc.kind (str "gitlab"))
      then ok (new_gitlab_provider gitlab host allowlist)
      else err (other "forge has unknown type")

  abbrev pub with_backend : Str → ForgeConfig → Hosts → Option (Configured S) → Result Hosts
  with_backend host fc h none = err (other "forge references unconfigured storage")
  with_backend host fc h (some b) = and_then (new_repo_allowlist fc.repo_allowlist) (λ allowlist.
      and_then (init_forge host fc allowlist)
        (λ p. ok (record { forges = (host, p) ∷ h.forges; storages = (host, b) ∷ h.storages })))

  abbrev pub with_forge : Backends → Str → Hosts → Option ForgeConfig → Result Hosts
  with_forge bs host h none = err (other "map forge config")
  with_forge bs host h (some fc) =
      if is_empty fc.storage
      then err (other "forge is missing required key STORAGE")
      else with_backend host fc h (entry fc.storage bs)

  abbrev pub add_forge : Section → Backends → Hosts → Str → Result Hosts
  add_forge s bs h name =
      if is_some (entry (to_lower name) h.forges)
      then err (other "duplicate forge configuration")
      else with_forge bs (to_lower name) h s.mapped

  abbrev pub forge_section : Section → Backends → Hosts → Option Str → Result Hosts
  forge_section s bs h none = ok h
  forge_section s bs h (some rest) =
      and_then (section_name (cut_suffix rest (str "\""))) (add_forge s bs h)

  -- The loop over the forge sections.
  unfoldable pub load_forges : List Section → Backends → Hosts → Result Hosts
  load_forges [] bs h = ok h
  load_forges (s ∷ ss) bs h =
      and_then (forge_section s bs h (cut_prefix s.name (str "forge \""))) (load_forges ss bs)

  abbrev pub if_any : List (Str × Provider N) → Hosts → Result Hosts
  if_any [] h = err (other "no forge configured")
  if_any (f ∷ fs) h = ok h

  abbrev pub some_forge : Hosts → Result Hosts
  some_forge h = if_any h.forges h

  abbrev pub no_hosts : Hosts
  no_hosts = record { forges = []; storages = [] }

  -- loadConfig, past the sections that are only mapped: the sections of storages and forges
  unfoldable pub load_hosts : List Section → Result Hosts
  load_hosts sections =
      and_then (load_storages sections [])
        (λ bs. and_then (load_forges sections bs no_hosts) some_forge)
