-- ===== src/App/Reach.antt =====
-- cmd/lfsd/main.go: whatever the server is asked, in any order, beside the janitor.
use git_lfs_server.Base.{◌≡◌, ◌≢◌, refl, sym, subst, Bool, List, ℕ}
use git_lfs_server.Base.Int.{ℤ}
use git_lfs_server.Base.Text.{Str}
use git_lfs_server.Database.Schema.{Object}
use git_lfs_server.Database.Invariant.{IsSound}
use git_lfs_server.Database.Link.{IsStored}
use git_lfs_server.Database.Catalog.{view}
use git_lfs_server.Database.Catalog.History.{
  History, History-IsSound, nothing, once, sweeps_orphans, sweeps_unreferenced, passes, later,
  History-trans, History-mono,
}
use git_lfs_server.Database.Catalog.Durable.{History-IsStored}
use git_lfs_server.Database.Catalog.Isolation.{History-linked}
use git_lfs_server.Storage.{Backend}
use git_lfs_server.Server.{World}
use git_lfs_server.Janitor.{sweep, orphan_age, sweep_batch_size}
use git_lfs_server.Janitor.Sweep.{sweep-db}
use git_lfs_server.App.{Lfsd, State, Request, serve, serve_healthz}
use git_lfs_server.App.Steps.{Grants, serve-History, ping-History}

module _ {S A : Type 0} (site : Lfsd S A) (mine : Str → Type 0) where
  -- The states that the server can come to from `st` when write access is granted only to
  -- repositories of `mine`. Each request, each health check and each sweep runs to its end before
  -- the next one, `changes` is what happens around the server: the clock, the faults to come, the
  -- storage behind its presigned URLs, the forges and the cache.
  pub data Reach (st : State S A) : State S A → Type 0 where
    begins : Reach st st
    serves :
        {mid : State S A}
        → Reach st mid
        → (req : Request) → ((repo : Str) → Grants site req mid repo → mine repo)
        → Reach st (serve site req mid).1
    checks :
        {mid : State S A}
        → Reach st mid
        → Reach st (record mid { world = (serve_healthz mid.world).1 })
    cleans :
        {mid : State S A}
        → Reach st mid
        → (storages : List (Backend S)) (locked locked' : Object → Bool)
        → Reach st (record mid { world = sweep storages locked locked' mid.world })
    changes :
        {mid : State S A}
        → Reach st mid
        → (now : ℕ) (faults : List Bool) (store : S) (net : A)
        → Reach st (record {
          world = record { db = record mid.world.db { now = now; faults = faults }; store = store };
          net = net;
        })

  sweep-History :
      (storages : List (Backend S)) (locked locked' : Object → Bool) (w : World S)
      → History mine w.db (sweep storages locked locked' w).db
  sweep-History storages locked locked' w =
      subst (History mine w.db) (sym (sweep-db storages locked locked' w)) (
        later (once (sweeps_orphans locked orphan_age sweep_batch_size w.db))
          (sweeps_unreferenced locked' sweep_batch_size _))

  -- Whatever the server is asked, its database goes through operations of
  -- internal/database/objects.go.
  pub Reach-History : {st st' : State S A} → Reach st st' → History mine st.world.db st'.world.db
  Reach-History {st = st} begins = nothing mine st.world.db
  Reach-History (serves {mid = mid} r req granted) =
      History-trans (Reach-History r) (History-mono granted (serve-History site req mid))
  Reach-History (checks {mid = mid} r) =
      History-trans (Reach-History r) (ping-History mine mid.world)
  Reach-History (cleans {mid = mid} r storages locked locked') =
      History-trans (Reach-History r) (sweep-History storages locked locked' mid.world)
  Reach-History (changes {mid = mid} r now faults store net) =
      later (Reach-History r) (passes now faults mid.world.db)

-- Every state that the server reaches from one with sound tables has sound tables.
pub Reach-IsSound :
    {S A : Type 0} (site : Lfsd S A) (mine : Str → Type 0) (st st' : State S A)
    → IsSound st.world.db
    → Reach site mine st st'
    → IsSound st'.world.db
Reach-IsSound site mine st st' s r = History-IsSound (Reach-History site mine r) s

-- What sound tables have stored for a repository stays stored for it, with the same size and
-- location, in every state that the server reaches.
pub Reach-IsStored :
    {S A : Type 0} (site : Lfsd S A) (mine : Str → Type 0) (st st' : State S A) (repo oid : Str)
    (size : ℤ) (uri : Str)
    → IsSound st.world.db
    → IsStored repo oid size uri st.world.db
    → Reach site mine st st'
    → IsStored repo oid size uri st'.world.db
Reach-IsStored site mine st st' repo oid size uri s stored r =
    History-IsStored repo oid size uri st.world.db st'.world.db s (Reach-History site mine r) stored

-- While write access is granted only to other repositories, a repository stays linked to the same
-- object ids, whatever the server is asked.
pub Reach-linked :
    {S A : Type 0} (site : Lfsd S A) (st st' : State S A) (repo oid : Str)
    → IsSound st.world.db
    → Reach site (λ r. r ≢ repo) st st'
    → (view st'.world.db).linked repo oid ≡ (view st.world.db).linked repo oid
Reach-linked site st st' repo oid s r =
    History-linked repo oid st.world.db st'.world.db (λ n. n refl) s
      (Reach-History site (λ r. r ≢ repo) r)
