-- ===== src/Tests/Configs.antt =====
-- A configuration of one storage and one forge.
use git_lfs_server.Base.{
  ℕ, ◌≡◌, ◌≢◌, refl, Option, none, some, List, [], ◌∷◌, All, Bool, true, false, is_some, is,
  if◌then◌else◌,
}
use git_lfs_server.Base.Int.{ℤ, pos}
use git_lfs_server.Base.Text.{Str, str, dec_str, to_lower}
use git_lfs_server.Error.{ok}
use git_lfs_server.Storage.Filesystem.{FilesystemBackend}
use git_lfs_server.Storage.Presign.{S3Client, not_found}
use git_lfs_server.Forge.{skip_auth_provider}
use git_lfs_server.Forge.GitHub.{GithubReply}
use git_lfs_server.Config.{Section, Configured, filesystem, Hosts, entry, load_hosts}
use git_lfs_server.Config.Pairing.{keys}
use git_lfs_server.Config.Load.{ServerConfig, Ini, Config, load_config, load_config-hosts}
use git_lfs_server.Database.Connect
use git_lfs_server.Tests.{backend}

abbrev pub client : S3Client (Unit {0})
client = record {
  presign_put_object = λ b k n c s. (none, s);
  presign_get_object = λ b k s. (none, s);
  head_object = λ b k s. (not_found, s);
  delete_object = λ b k s. (true, s);
}

abbrev pub until : Str → Str → Option ℤ
until layout header = none

abbrev pub github : Str → Str → Unit {0} → Option GithubReply × Unit {0}
github url token n = (none, n)

abbrev pub gitlab : Str → Str → Str → Unit {0} → Option ℕ × Unit {0}
gitlab url user token n = (none, n)

abbrev pub endpoint_ok : Str → Bool
endpoint_ok e = true

-- The keys of the storage's section.
unfoldable pub storage_key : Str → Str
storage_key k =
    if is (dec_str k (str "SCHEME"))
    then str "fs://"
    else if is (dec_str k (str "TYPE"))
    then str "filesystem"
    else if is (dec_str k (str "ROOT"))
    then str "/r"
    else str "/t"

abbrev sections : List Section
sections =
    record { name = str "storage \"a\""; key = storage_key; mapped = none }
    ∷ record {
      name = str "forge \"H\"";
      key = storage_key;
      mapped =
          some (record { kind = []; storage = str "a"; skip_auth = true; repo_allowlist = [] });
    }
    ∷ []

abbrev pub hosts : Hosts [] endpoint_ok client until github gitlab
hosts = record {
  forges = (str "h", skip_auth_provider none) ∷ [];
  storages = (str "h", filesystem backend) ∷ [];
}

hosts_eq : load_hosts [] endpoint_ok client until github gitlab sections ≡ ok hosts
unfolding load_hosts storage_key git_lfs_server.Config.load_storages
    git_lfs_server.Config.load_forges git_lfs_server.Config.init_storage
    git_lfs_server.Config.init_forge git_lfs_server.Config.validate_storage_scheme
    git_lfs_server.Storage.Filesystem.new_filesystem_backend git_lfs_server.Forge.new_repo_allowlist
    git_lfs_server.Forge.add_entries git_lfs_server.Base.Text.dec_str str to_lower
    git_lfs_server.Base.Text.lower git_lfs_server.Base.Text.cut_prefix
    git_lfs_server.Base.Text.cut_suffix git_lfs_server.Base.Text.has_suffix
    git_lfs_server.Base.Text.has_prefix git_lfs_server.Base.Text.is_empty
    git_lfs_server.Storage.FilePath.abs git_lfs_server.Storage.FilePath.clean
    git_lfs_server.Storage.FilePath.render git_lfs_server.Storage.FilePath.resolve
    git_lfs_server.Storage.FilePath.resolve_all git_lfs_server.Storage.FilePath.split_slash
    git_lfs_server.Base.ℕ_discrete
hosts_eq = refl

abbrev pub server : ServerConfig
server = record { listen_address = str ":80"; external_url = str "e"; max_object_size = pos 0 }

abbrev database : Connect.Config
database = record {
  host = str "db";
  port = pos 5432;
  name = str "lfs";
  user = str "u";
  password = str "p";
  ssl_mode = str "disable";
  max_open_conns = pos 5;
  max_idle_conns = pos 5;
  conn_max_lifetime = pos 1;
  conn_max_idle_time = pos 1;
}

-- The files are told apart by whether the custom one has been appended.
abbrev pub ini : Ini Bool
ini = record {
  load = λ text. some false;
  append = λ path f. some true;
  expand_env = λ f. f;
  server = λ f. some server;
  database = λ f. some database;
  log = λ f. some (record { level = [] });
  sections = λ f. if f then sections else [];
}

abbrev pub config : Config (Unit {0}) (Unit {0})
config = record {
  server = server;
  database = database;
  forges = hosts.forges;
  storages = hosts.storages;
  log = record { level = [] };
}

abbrev pub path : Str
path = b'p' ∷ []

pub loaded_eq : load_config [] endpoint_ok client until github gitlab ini [] path ≡ ok config
unfolding load_config git_lfs_server.Base.Text.is_empty str skip_auth_provider
loaded_eq = rw hosts_eq

load_config-hosts_example :
    ((host : Str) → is_some (entry host config.forges) ≡ is_some (entry host config.storages))
    × All (λ k. to_lower k ≡ k) (keys config.forges)
    × (config.forges ≢ [])
load_config-hosts_example =
    load_config-hosts [] endpoint_ok client until github gitlab ini [] path config loaded_eq
