-- ===== src/App/Backed.antt =====
-- cmd/lfsd/main.go with one filesystem backend: what stands in the files, whatever the server is
-- asked, beside the janitor.
use git_lfs_server.Base.{
  length, ◌≢◌, ◌∙◌, ap, ℕ, ◌≡◌, ◌<◌, ◌^◌, ◌⊎◌, subst, Bool, true, false, none, some, List, [], ◌∷◌,
  All, is_some, arith, inl, inr, Option-cases,
}
use git_lfs_server.Base.Int.{ℤ, pos}
use git_lfs_server.Base.Text.{Str}
use git_lfs_server.Database.Schema.{Object, Db}
use git_lfs_server.Database.Exec
use git_lfs_server.Database.Exec.{query}
use git_lfs_server.Database.Invariant.{IsSound}
use git_lfs_server.Database.Link.{IsStored}
use git_lfs_server.Database.Catalog.{view}
use git_lfs_server.Iox.Equivalence.{available}
use git_lfs_server.Iox.Hex.{hex_encode}
use git_lfs_server.Storage.{proxier}
use git_lfs_server.Storage.FilePath.Clean.{slashless}
use git_lfs_server.Storage.FilePath.Under.{IsClean}
use git_lfs_server.Storage.Filesystem
use git_lfs_server.Storage.Filesystem.{Fs, FilesystemBackend, filesystem_proxier, storage_path}
use git_lfs_server.Storage.Filesystem.Uris.{IsReadable}
use git_lfs_server.Server.{
  content, cut_off, Permission, World, Params, may_read, host_from_context, repo_name_from_context,
  attempt,
}
use git_lfs_server.Server.Download.{serve_download, with_length}
use git_lfs_server.Server.Serving.{serve_download-serves, sent-cases}
use git_lfs_server.Server.Brought.{object_uri}
use git_lfs_server.Server.Delivery.{open_uri-kept, object_uri-full}
use git_lfs_server.Server.Backed.{IsHeld, same-IsHeld}
use git_lfs_server.Server.Backed.Upload.{serve_upload-IsHeld}
use git_lfs_server.Server.Backed.Batch.{serve_batch-IsHeld}
use git_lfs_server.Server.Backed.Reads.{serve_download-IsHeld, serve_verify-IsHeld}
use git_lfs_server.Auth.{Verdict, passed, answered}
use git_lfs_server.Janitor.{sweep}
use git_lfs_server.Janitor.Backed.{sweep-IsHeld}
use git_lfs_server.App.{
  Lfsd, State, Request, Call, post_batch, get_object, put_object, post_verify, handle, handled,
  permission, serve, serve_healthz, ping,
}
use git_lfs_server.App.Reach.{
  Reach, begins, serves, checks, cleans, changes, Reach-IsSound, Reach-IsStored,
}

-- A body that io.Copy can count.
abbrev IsSmall : Call → Type 0
IsSmall (put_object size body) = available body < 2 ^ 63
IsSmall (post_batch authz decoded) = Unit {0}
IsSmall get_object = Unit {0}
IsSmall (post_verify decoded) = Unit {0}

entry-stored :
    (repo oid : Str) (size : ℤ) (uri : Str) (db : Db)
    → IsStored repo oid size uri db
    → (view db).object oid ≡ some (size, uri)
unfolding view
entry-stored repo oid size uri db s = rw s.found (ground (arith, s.row_size, s.row_uri, s.verified))

module _ {A : Type 0} (site : Lfsd Fs A) (host_ok : Str → Bool) (cwd : Str)
    (b : FilesystemBackend) where
  -- Every host that has a storage has this one.
  abbrev IsOnly : Type 0
  IsOnly =
      (host : Str)
      → (site.storages host ≡ none)
        ⊎ (site.storages host ≡ some (proxier (filesystem_proxier host_ok cwd b)))

  -- The states that the server comes to. Around it, time passes, calls fail, and the forges and the
  -- cache change, but nobody else writes files.
  pub data Runs (st : State Fs A) : State Fs A → Type 0 where
    starts : Runs st st
    answers :
        {mid : State Fs A}
        → Runs st mid
        → (req : Request) → IsSmall req.call
        → Runs st (serve site req mid).1
    pings :
        {mid : State Fs A}
        → Runs st mid
        → Runs st (record mid { world = (serve_healthz mid.world).1 })
    sweeps :
        {mid : State Fs A}
        → Runs st mid
        → (locked locked' : Object → Bool)
        → Runs st (record mid {
          world = sweep (proxier (filesystem_proxier host_ok cwd b) ∷ []) locked locked' mid.world;
        })
    passes :
        {mid : State Fs A}
        → Runs st mid
        → (now : ℕ) (faults disk_faults : List Bool) (randoms : List Str) (net : A)
        → All (λ q. slashless q ≡ true) randoms
        → Runs st (record {
          world = record {
            db = record mid.world.db { now = now; faults = faults };
            store = record mid.world.store { faults = disk_faults; randoms = randoms };
          };
          net = net;
        })

  Runs-Reach : {st st' : State Fs A} → Runs st st' → Reach site (λ repo. Unit {0}) st st'
  Runs-Reach starts = begins
  Runs-Reach (answers k req small) = serves (Runs-Reach k) req (λ repo g. tt)
  Runs-Reach (pings k) = checks (Runs-Reach k)
  Runs-Reach (sweeps k locked locked') =
      cleans (Runs-Reach k) (proxier (filesystem_proxier host_ok cwd b) ∷ []) locked locked'
  Runs-Reach (passes {mid = mid} k now faults disk_faults randoms net drawn) =
      changes (Runs-Reach k) now faults
        (record mid.world.store { faults = disk_faults; randoms = randoms }) net

  module _ (only : IsOnly) (r : IsReadable b) (temp : IsClean b.temp_dir)
      (fine : host_ok [] ≡ true) where
    handle-IsHeld :
        (c : Params) (perm : Permission) (call : Call) (w : World Fs)
        → IsSmall call
        → IsSound w.db
        → IsHeld site.sha256 b w
        → IsHeld site.sha256 b (handle site c perm call w).1
    handle-IsHeld c perm (post_batch authz decoded) w small s held =
        serve_batch-IsHeld site.sha256 b site.config c perm authz decoded w s held
    handle-IsHeld c perm get_object w small s held =
        serve_download-IsHeld host_ok cwd site.sha256 c b site.storages perm w
          (only (host_from_context c)) held
    handle-IsHeld c perm (put_object size body) w small s held =
        serve_upload-IsHeld host_ok cwd site.sha256 c body b r.tidy temp small site.storages
          site.config.max_object_size perm size w (only (host_from_context c)) s held
    handle-IsHeld c perm (post_verify decoded) w small s held =
        serve_verify-IsHeld host_ok cwd site.sha256 c b site.storages perm decoded w
          (only (host_from_context c)) held

    serve-IsHeld :
        (req : Request) (st : State Fs A)
        → IsSmall req.call
        → IsSound st.world.db
        → IsHeld site.sha256 b st.world
        → IsHeld site.sha256 b (serve site req st).1.world
    unfolding serve
    serve-IsHeld req st small s held = go (permission site req st)
      where
        go : (v : Verdict × A) → IsHeld site.sha256 b (handled site req v st.world).1.world
        go (answered a, net) = held
        go (passed perm, net) = handle-IsHeld req.params perm req.call st.world small s held

    ping-IsHeld : (w : World Fs) → IsHeld site.sha256 b w → IsHeld site.sha256 b (serve_healthz w).1
    unfolding serve_healthz attempt ping query view
    ping-IsHeld w held =
        same-IsHeld site.sha256 b w (serve_healthz w).1 (ground arith) (ground arith, ground arith)
          held

    -- On a server where every host that has a storage has the same filesystem backend, with a root
    -- and a scheme that its URIs can be read back from: from sound tables, every entry of whose
    -- catalog is at the file of its object, and files that hash to their object ids, requests with
    -- bodies shorter than 2 ^ 63 bytes, health checks and sweeps lead only to such ones. The file of
    -- an object in the catalog is never missing, and none hashes to anything but its object id.
    pub Runs-IsHeld :
        (st st' : State Fs A)
        → IsSound st.world.db
        → IsHeld site.sha256 b st.world
        → Runs st st'
        → IsHeld site.sha256 b st'.world
    unfolding view
    Runs-IsHeld st st' s held starts = held
    Runs-IsHeld st st' s held (answers {mid = mid} k req small) =
        serve-IsHeld req mid small (Reach-IsSound site (λ repo. Unit {0}) st mid s (Runs-Reach k))
          (Runs-IsHeld st mid s held k)
    Runs-IsHeld st st' s held (pings {mid = mid} k) =
        ping-IsHeld mid.world (Runs-IsHeld st mid s held k)
    Runs-IsHeld st st' s held (sweeps {mid = mid} k locked locked') =
        sweep-IsHeld host_ok cwd site.sha256 b r fine locked locked' mid.world
          (Reach-IsSound site (λ repo. Unit {0}) st mid s (Runs-Reach k))
          (Runs-IsHeld st mid s held k)
    Runs-IsHeld st st' s held (passes {mid = mid} k now faults disk_faults randoms net drawn) =
        let (filed, intact) = Runs-IsHeld st mid s held k in
        (
          λ oid size uri h.
              let f = filed oid size uri h in
              record { valid = f.valid; located = f.located; filed = f.filed },
          record { hashed = intact.hashed; drawn = drawn },
        )

    -- On a server where every host that has a storage has the same filesystem backend, whose root
    -- is clean, is not "/", and has no "%", "?", "#" or control character, whose scheme is one in
    -- lower case, and whose directory of temporary files is clean; where net/url accepts the empty
    -- authority, no name that os.CreateTemp draws has a slash, and bodies of requests are shorter
    -- than 2 ^ 63 bytes; and that began with sound tables, every entry of whose catalog is at the
    -- file of its object, and files that hash to their object ids: what was stored for a
    -- repository, with a size that is not negative, has, in every later state, a file that hashes
    -- to the object id, and serveDownload, for a host that has a storage and one who may read,
    -- where no statement and no system call fails, answers by 200 with the stored size as its
    -- Content-Length. The body is the file, whole, if the file is of that size, and is cut off
    -- otherwise.
    pub Runs-serves :
        (st st' : State Fs A) (c : Params) (perm : Permission) (size : ℕ) (uri : Str)
        → IsSound st.world.db
        → IsHeld site.sha256 b st.world
        → IsStored (repo_name_from_context c) c.oid (pos size) uri st.world.db
        → Runs st st'
        → is_some (site.storages (host_from_context c)) ≡ true
        → may_read perm ≡ true
        → Exec.first_fault st'.world.db.faults ≡ false
        → Filesystem.first_fault st'.world.store.faults ≡ false
        → Filesystem.first_fault (Filesystem.later_faults st'.world.store.faults) ≡ false
        → (bytes : List ℕ) × (st'.world.store.files (storage_path b c.oid) ≡ some bytes)
          × (hex_encode (site.sha256 bytes) ≡ c.oid)
          × (((size ≡ length bytes)
                × ((serve_download c site.storages perm st'.world).0
                    ≡ with_length (pos size) (content bytes)))
              ⊎ ((size ≢ length bytes)
                  × ((serve_download c site.storages perm st'.world).0
                      ≡ with_length (pos size) cut_off)))
    unfolding view filesystem_proxier
    Runs-serves st st' c perm size uri s held stored k there may up up' up₂ =
        let (filed, intact) = Runs-IsHeld st st' s held k in
        let sound = Reach-IsSound site (λ repo. Unit {0}) st st' s (Runs-Reach k) in
        let kept =
          Reach-IsStored site (λ repo. Unit {0}) st st' (repo_name_from_context c) c.oid (pos size)
            uri s stored (Runs-Reach k) in
        let at_ =
          filed c.oid (pos size) uri
            (entry-stored (repo_name_from_context c) c.oid (pos size) uri st'.world.db kept) in
        elim (only (host_from_context c)) [
          | inl e ↦ absurd (cc (rw e at there))
          | inr e ↦ elim (Option-cases (st'.world.store.files (storage_path b c.oid))) [
            | inl gone ↦ absurd (cc (gone, at_.filed))
            | inr (bytes, found) ↦
                let served =
                  serve_download-serves c site.storages (filesystem_proxier host_ok cwd b) st'.world
                    perm size (object_uri host_ok cwd site.sha256 c [] b r) (bytes, none) e may
                    at_.valid sound up
                    (subst
                      (λ u. IsStored (repo_name_from_context c) c.oid (pos size) u st'.world.db)
                      at_.located kept)
                    (object_uri-full host_ok cwd site.sha256 c [] b r)
                    (open_uri-kept host_ok cwd site.sha256 c [] b r bytes st'.world.store fine
                      at_.valid found up' up₂) in
                (
                  bytes,
                  found,
                  intact.hashed c.oid bytes at_.valid found,
                  elim (sent-cases size bytes) [
                    | inl (n, w) ↦ inl (n, served ∙ ap (with_length (pos size)) w)
                    | inr (n, w) ↦ inr (n, served ∙ ap (with_length (pos size)) w)
                  ],
                )
          ]
        ]
