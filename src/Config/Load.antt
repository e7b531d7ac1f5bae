-- ===== src/Config/Load.antt =====
-- cmd/lfsd/config.go: loadConfig. The files are read, and their sections mapped to structs, by
-- gopkg.in/ini.v1.
use git_lfs_server.Base.{
  ℕ, Bool, String, subst, ◌≡◌, ◌≢◌, Option, none, some, List, [], All, is_some, if◌then◌else◌,
}
use git_lfs_server.Base.Int.{ℤ}
use git_lfs_server.Base.Text.{Str, to_lower, is_empty}
use git_lfs_server.Error.{Result, ok, err, other}
use git_lfs_server.Database.Connect
use git_lfs_server.Storage.Presign.{S3Client}
use git_lfs_server.Forge.{Provider, and_then}
use git_lfs_server.Forge.Allowlist.{and_then-ok, ok-injective}
use git_lfs_server.Forge.GitHub.{GithubReply}
use git_lfs_server.Config.{Section, Configured, entry, load_hosts}
use git_lfs_server.Config.Pairing.{keys, load_hosts-hosts}

pub record ServerConfig : Type 0 where
  pub listen_address : Str
  pub external_url : Str
  pub max_object_size : ℤ

pub record LogConfig : Type 0 where
  pub level : Str

-- The package ini, on its files `F`; `none` is an error.
pub record Ini (F : Type 0) : Type 0 where
  -- Load, of the text of a file
  pub load : Str → Option F
  -- Append, of the file of a path
  pub append : Str → F → Option F
  -- `ValueMapper = os.ExpandEnv`
  pub expand_env : F → F
  -- Section("server").MapTo, and so on
  pub server : F → Option ServerConfig
  pub database : F → Option Connect.Config
  pub log : F → Option LogConfig
  pub sections : F → List Section

-- Config; the two maps are association lists.
pub record Config (S N : Type 0) : Type 0 where
  pub server : ServerConfig
  pub database : Connect.Config
  pub forges : List (Str × Provider N)
  pub storages : List (Str × Configured S)
  pub log : LogConfig

abbrev pub or_fail : {A : Type 0} → String → Option A → Result A
or_fail message none = err (other message)
or_fail message (some a) = ok a

module _ {S N F : Type 0} (cwd : Str) (endpoint_ok : Str → Bool) (client : S3Client S)
    (until : Str → Str → Option ℤ) (github : Str → Str → N → Option GithubReply × N)
    (gitlab : Str → Str → Str → N → Option ℕ × N) (ini : Ini F) (embedded : Str) where
  abbrev pub with_custom : Str → F → Result F
  with_custom path f =
      if is_empty path then ok f else or_fail "load custom config" (ini.append path f)

  abbrev pub map_sections : F → Result (Config S N)
  map_sections f = and_then (or_fail "map [server] config" (ini.server f)) (λ server.
      and_then (or_fail "map [database] config" (ini.database f)) (λ database.
        and_then (or_fail "map [log] config" (ini.log f)) (λ log.
          and_then (load_hosts cwd endpoint_ok client until github gitlab (ini.sections f))
            (λ hosts. ok (record {
              server = server;
              database = database;
              forges = hosts.forges;
              storages = hosts.storages;
              log = log;
            })))))

  -- loadConfig
  unfoldable pub load_config : Str → Result (Config S N)
  load_config path =
      and_then (or_fail "load embedded config" (ini.load embedded))
        (λ f. and_then (with_custom path f) (λ f'. map_sections (ini.expand_env f')))

  -- A configuration that loadConfig accepts has a storage for exactly the hosts that have a forge,
  -- all of them in lower case, and at least one.
  pub load_config-hosts :
      (path : Str) (config : Config S N)
      → load_config path ≡ ok config
      → ((host : Str) → is_some (entry host config.forges) ≡ is_some (entry host config.storages))
        × All (λ k. to_lower k ≡ k) (keys config.forges)
        × (config.forges ≢ [])
  unfolding load_config
  load_config-hosts path config e =
      let (f, _, e₁) =
        and_then-ok (or_fail "load embedded config" (ini.load embedded)) _ config e in
      let (f', _, e₂) = and_then-ok (with_custom path f) _ config e₁ in
      let g = ini.expand_env f' in
      let (server, _, e₃) =
        and_then-ok (or_fail "map [server] config" (ini.server g)) _ config e₂ in
      let (database, _, e₄) =
        and_then-ok (or_fail "map [database] config" (ini.database g)) _ config e₃ in
      let (log, _, e₅) = and_then-ok (or_fail "map [log] config" (ini.log g)) _ config e₄ in
      let (hosts, loaded, last) =
        and_then-ok (load_hosts cwd endpoint_ok client until github gitlab (ini.sections g)) _
          config e₅ in
      subst
        (λ x.
          ((host : Str) → is_some (entry host x.forges) ≡ is_some (entry host x.storages))
          × All (λ k. to_lower k ≡ k) (keys x.forges)
          × (x.forges ≢ []))
        (ok-injective last)
        (load_hosts-hosts cwd endpoint_ok client until github gitlab (ini.sections g) hosts loaded)
