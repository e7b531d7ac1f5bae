-- ===== src/Tests.antt =====
-- The concrete inputs that the tests share.
pub mod Uploads
pub mod Tables
pub mod Access
pub mod Configs
pub mod Replies
pub mod Batches
pub mod Operations
pub mod Sites
pub mod Started
pub mod Deliveries
pub mod Texts
pub mod Held
use git_lfs_server.Base.{
  ℕ, zero, suc, ◌≡◌, refl, Option, none, some, List, [], ◌∷◌, Bool, true, arith,
}
use git_lfs_server.Base.Int.{ℤ, pos}
use git_lfs_server.Base.Text.{Str, str}
use git_lfs_server.Error.{Result, ok, eof}
use git_lfs_server.Database.Schema.{Db, fresh}
use git_lfs_server.Database.Invariant.{IsSound}
use git_lfs_server.Iox.{Read}
use git_lfs_server.Storage.{Backend, Proxier, proxier}
use git_lfs_server.Storage.Filesystem.{Fs, FilesystemBackend, filesystem_proxier}
use git_lfs_server.Server.{World, Params, Storages}

abbrev pub zeros : ℕ → ℕ → List ℕ
zeros zero c = []
zeros (suc n) c = c ∷ zeros n c

-- A digest that does not depend on the text: 32 zero bytes.
abbrev pub digest : List ℕ → List ℕ
digest bytes = zeros 32 0

-- Its hexadecimal form.
abbrev pub oid : Str
oid = zeros 64 b'0'

-- Three bytes, in two reads.
abbrev pub body : List Read
body =
    record { bytes = 7 ∷ 8 ∷ []; error = none } ∷ record { bytes = 9 ∷ []; error = some eof } ∷ []

abbrev pub params : Params
params = record { host = str "h"; path = str "o"; oid = oid }

abbrev pub repo : Str
repo = str "h/o"

abbrev pub db : Db
db = fresh 5 []

pub db-IsSound : IsSound db
db-IsSound = record {
  positive = omega arith;
  ids = tt;
  oids = tt;
  check = refl;
  links = tt;
  held = tt;
  counted = tt;
}

abbrev pub backend : FilesystemBackend
backend = record { name = str "a"; scheme = str "fs://"; root = str "/r"; temp_dir = str "/t" }

abbrev pub files : Fs
files = record { files = λ p. none; randoms = str "1" ∷ []; faults = [] }

abbrev pub host_ok : Str → Bool
host_ok h = true

abbrev pub storages : Storages Fs
storages h = some (proxier (filesystem_proxier host_ok [] backend))

abbrev pub world : World Fs
world = record { db = db; store = files }
