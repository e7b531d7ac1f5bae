-- ===== src/App/Start.antt =====
-- cmd/lfsd/main.go: what main makes of the configuration before it serves.
use git_lfs_server.Base.{ℕ, Bool, Option, none, some, List, [], ◌∷◌}
use git_lfs_server.Base.Int.{ℤ}
use git_lfs_server.Base.Text.{Str, str}
use git_lfs_server.Error.{Result, ok}
use git_lfs_server.Storage.{Base, Proxier, Presigner, Backend, proxier, presigner}
use git_lfs_server.Storage.Filesystem.{Fs, filesystem_proxier}
use git_lfs_server.Storage.Presign.{S3Client, s3_presigner}
use git_lfs_server.Forge.{and_then}
use git_lfs_server.Forge.GitHub.{GithubReply}
use git_lfs_server.Auth.{Cache}
use git_lfs_server.Config.{Configured, filesystem, s3_presign, entry}
use git_lfs_server.Config.Load.{Ini, Config, load_config}
use git_lfs_server.Logging.{coalesce}
use git_lfs_server.App.{Lfsd}

-- The filesystem and the buckets are one state of the storages.
module _ {S : Type 0} where
  abbrev pub on_files : {A : Type 0} → (Fs → A × Fs) → Fs × S → A × (Fs × S)
  on_files f (fs, s) = let (a, fs') = f fs in (a, (fs', s))

  abbrev pub on_buckets : {A : Type 0} → (S → A × S) → Fs × S → A × (Fs × S)
  on_buckets f (fs, s) = let (a, s') = f s in (a, (fs, s'))

  abbrev pub file_base : Base Fs → Base (Fs × S)
  file_base b = record {
    name = b.name;
    kind = b.kind;
    scheme = b.scheme;
    delete = λ uri. on_files (b.delete uri);
  }

  abbrev pub bucket_base : Base S → Base (Fs × S)
  bucket_base b = record {
    name = b.name;
    kind = b.kind;
    scheme = b.scheme;
    delete = λ uri. on_buckets (b.delete uri);
  }

  abbrev pub file_backend : Proxier Fs → Proxier (Fs × S)
  file_backend p = record {
    base = file_base p.base;
    put = λ oid source. on_files (p.put oid source);
    open_uri = λ uri. on_files (p.open_uri uri);
  }

  abbrev pub bucket_backend : Presigner S → Presigner (Fs × S)
  bucket_backend p = record {
    base = bucket_base p.base;
    uri = p.uri;
    presign_put = λ oid size. on_buckets (p.presign_put oid size);
    presign_get = λ uri. on_buckets (p.presign_get uri);
    head = λ uri. on_buckets (p.head uri);
  }

  -- A configured storage, as a storage.Backend.
  unfoldable pub backend : (Str → Bool) → Str → Configured S → Backend (Fs × S)
  backend host_ok cwd (filesystem b) = proxier (file_backend (filesystem_proxier host_ok cwd b))
  backend host_ok cwd (s3_presign b) = presigner (bucket_backend (s3_presigner b))

  abbrev pub in_use : (Str → Bool) → Str → Option (Configured S) → Option (Backend (Fs × S))
  in_use host_ok cwd none = none
  in_use host_ok cwd (some b) = some (backend host_ok cwd b)

module _ {S N : Type 0} (host_ok : Str → Bool) (cwd : Str) (sha256 : List ℕ → List ℕ)
    (cache : Cache N) where
  -- What main hands to the handlers.
  unfoldable pub lfsd : Config S N → Lfsd (Fs × S) N
  lfsd config = record {
    forges = λ host. entry host config.forges;
    storages = λ host. in_use host_ok cwd (entry host config.storages);
    config = record {
      external_url = config.server.external_url;
      max_object_size = config.server.max_object_size;
    };
    sha256 = sha256;
    cache = cache;
  }

  -- What comes of the environment's LFSD_CONFIG_PATH: main exits where the configuration is refused.
  unfoldable pub start :
      {F : Type 0}
      → (Str → Bool)
      → S3Client S
      → (Str → Str → Option ℤ)
      → (Str → Str → N → Option GithubReply × N)
      → (Str → Str → Str → N → Option ℕ × N)
      → Ini F
      → Str
      → Str
      → Result (Lfsd (Fs × S) N)
  start endpoint_ok client until github gitlab ini embedded env =
      and_then
        (load_config cwd endpoint_ok client until github gitlab ini embedded
          (coalesce (env ∷ str "config.ini" ∷ [])))
        (λ config. ok (lfsd config))
