-- ===== src/Tests/Held.antt =====
-- A server with one filesystem backend: an upload, a sweep, and a download later.
use git_lfs_server.Base.{length, ◌⊎◌, ◌≢◌, ℕ, ◌≡◌, refl, none, some, List, [], inr, arith}
use git_lfs_server.Base.Int.{pos}
use git_lfs_server.Database.Invariant.{IsSound}
use git_lfs_server.Database.Catalog.{view}
use git_lfs_server.Database.Sweeps.Drained.{not_locked}
use git_lfs_server.Iox.Hex.{hex_encode}
use git_lfs_server.Storage.Filesystem.{Fs, storage_path}
use git_lfs_server.Forge.{skip_auth_provider}
use git_lfs_server.Server.{content, cut_off, World, read, write}
use git_lfs_server.Server.Download.{serve_download, with_length}
use git_lfs_server.Server.Stored.{Keeps}
use git_lfs_server.Server.Sound.{serve_upload-IsSound}
use git_lfs_server.Server.Backed.{IsHeld}
use git_lfs_server.Server.Backed.Upload.{serve_upload-IsHeld}
use git_lfs_server.Server.Stored.{serve_upload-stored}
use git_lfs_server.App.{Lfsd, State}
use git_lfs_server.App.Backed.{Runs, starts, sweeps, passes, Runs-IsHeld, Runs-serves}
use git_lfs_server.Tests.{digest, oid, body, params, backend, host_ok, storages, world, db-IsSound}
use git_lfs_server.Tests.Sites.{cache}
use git_lfs_server.Tests.Uploads.{uploaded_code}
use git_lfs_server.Tests.Deliveries.{temp-IsClean, backend-IsReadable, drawn, uploaded}

abbrev site : Lfsd Fs (Unit {0})
site = record {
  forges = λ h. some (skip_auth_provider none);
  storages = storages;
  config = record { external_url = []; max_object_size = pos 0 };
  sha256 = digest;
  cache = cache;
}

-- The empty tables and no file.
world-IsHeld : IsHeld digest backend world
unfolding view git_lfs_server.Database.Statements.find
world-IsHeld = (
  λ oid size uri h. absurd (cc (h)),
  record { hashed = λ oid bytes v h. absurd (cc (h)); drawn = drawn },
)

uploaded-IsHeld : IsHeld digest backend uploaded
uploaded-IsHeld =
    serve_upload-IsHeld host_ok [] digest params body backend backend-IsReadable.tidy temp-IsClean
      (omega arith) storages (pos 0) write (pos 3) world (inr refl) db-IsSound world-IsHeld

abbrev begun : State Fs (Unit {0})
begun = record { world = uploaded; net = tt }

uploaded-IsSound : IsSound uploaded.db
uploaded-IsSound =
    serve_upload-IsSound digest params body storages (pos 0) write (pos 3) world db-IsSound

kept : Keeps params oid (pos 3) uploaded
kept = serve_upload-stored digest params body storages (pos 0) write (pos 3) world uploaded_code

abbrev swept : World Fs
swept =
    git_lfs_server.Janitor.sweep
      (git_lfs_server.Janitor.Backed.storages host_ok [] digest backend backend-IsReadable refl)
      not_locked not_locked uploaded

abbrev ended : State Fs (Unit {0})
ended = record {
  world = record {
    db = record swept.db { now = 9; faults = [] };
    store = record swept.store { faults = []; randoms = [] };
  };
  net = tt;
}

ended-Runs : Runs site host_ok [] backend begun ended
ended-Runs = passes (sweeps starts not_locked not_locked) 9 [] [] [] tt tt

Runs-IsHeld_example : IsHeld digest backend ended.world
Runs-IsHeld_example =
    Runs-IsHeld site host_ok [] backend (λ h. inr refl) backend-IsReadable temp-IsClean refl begun
      ended uploaded-IsSound uploaded-IsHeld ended-Runs

Runs-serves_example :
    (bytes : List ℕ) × (ended.world.store.files (storage_path backend oid) ≡ some bytes)
    × (hex_encode (digest bytes) ≡ oid)
    × (((3 ≡ length bytes)
          × ((serve_download params storages read ended.world).0
              ≡ with_length (pos 3) (content bytes)))
        ⊎ ((3 ≢ length bytes)
            × ((serve_download params storages read ended.world).0 ≡ with_length (pos 3) cut_off)))
Runs-serves_example =
    Runs-serves site host_ok [] backend (λ h. inr refl) backend-IsReadable temp-IsClean refl begun
      ended params read 3 kept.0 uploaded-IsSound uploaded-IsHeld kept.1 ended-Runs refl refl refl
      refl refl
