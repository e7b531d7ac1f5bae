-- ===== src/Tests/Started.antt =====
-- A server that is started on the configuration of one storage and one forge, and a request to it.
use git_lfs_server.Base.{◌≡◌, refl, ap, none, some, [], ◌∷◌, true, is_some, Bool}
use git_lfs_server.Base.Text.{Str, str}
use git_lfs_server.Error.{ok}
use git_lfs_server.Storage.Filesystem.{Fs}
use git_lfs_server.Server.{write, host_from_context}
use git_lfs_server.Auth.{Cache, miss, passed}
use git_lfs_server.App.{Lfsd, Request, State, get_object, permission}
use git_lfs_server.App.Start.{lfsd, start}
use git_lfs_server.App.Ready.{start-has_storage}
use git_lfs_server.Tests.{oid, digest, db}
use git_lfs_server.Tests.Configs.{
  endpoint_ok, client, until, github, gitlab, ini, path, config, loaded_eq,
}

abbrev host_ok : Str → Bool
host_ok h = true

abbrev cache : Cache (Unit {0})
cache = record { get = λ key a. (miss, a); set = λ key perm ttl a. a }

abbrev site : Lfsd (Fs × Unit {0}) (Unit {0})
site = lfsd host_ok [] digest cache config

started_eq :
    start host_ok [] digest cache endpoint_ok client until github gitlab ini [] path ≡ ok site
unfolding start git_lfs_server.Logging.coalesce git_lfs_server.Base.Text.is_empty
started_eq = rw loaded_eq

abbrev fs : Fs
fs = record { files = λ p. none; faults = []; randoms = [] }

abbrev state : State (Fs × Unit {0}) (Unit {0})
state = record { world = record { db = db; store = (fs, tt) }; net = tt }

-- The host is written in the other case.
abbrev asking : Request
asking = record {
  params = record { host = str "H"; path = str "o/r"; oid = oid };
  basic_auth = some (str "u", str "t");
  call = get_object;
}

passes_eq : permission site asking state ≡ (passed write, tt)
unfolding git_lfs_server.Auth.authorize lfsd git_lfs_server.Forge.skip_auth_provider
    git_lfs_server.Forge.allow git_lfs_server.Base.Text.dec_str str
    git_lfs_server.Base.Text.has_prefix git_lfs_server.Base.Text.cut_prefix
    git_lfs_server.Base.Text.is_empty git_lfs_server.Base.Text.to_lower
    git_lfs_server.Base.Text.lower git_lfs_server.Base.ℕ_discrete host_from_context
    git_lfs_server.Auth.auth_cache_ttl
passes_eq = refl

start-has_storage_example : is_some (site.storages (host_from_context asking.params)) ≡ true
start-has_storage_example =
    start-has_storage host_ok [] digest cache endpoint_ok client until github gitlab ini [] path
      site asking state write tt started_eq passes_eq
