-- ===== src/Tests/Sites.antt =====
-- The server as a whole at a concrete site: one storage, one forge that grants everything, and no
-- cache.
use git_lfs_server.Base.{◌≡◌, ◌≢◌, ◌⊎◌, sym, ◌∙◌, none, some, [], ◌∷◌, true}
use git_lfs_server.Base.Int.{pos}
use git_lfs_server.Base.Text.{Str, str}
use git_lfs_server.Database.Invariant.{IsSound}
use git_lfs_server.Database.Link.{IsStored}
use git_lfs_server.Database.Catalog.{view}
use git_lfs_server.Database.Unchanged.{IsUnchanged}
use git_lfs_server.Database.Sweeps.Drained.{not_locked}
use git_lfs_server.Forge.{skip_auth_provider}
use git_lfs_server.Auth.{Cache, miss}
use git_lfs_server.Auth.Allowed.{IsAllowed}
use git_lfs_server.Storage.{proxier}
use git_lfs_server.Server.{Permission, may_write}
use git_lfs_server.App.{Lfsd, State, Request, put_object, serve}
use git_lfs_server.App.Steps.{Grants}
use git_lfs_server.App.Access.{serve-IsAllowed}
use git_lfs_server.App.Reach.{
  Reach, begins, serves, cleans, Reach-IsSound, Reach-IsStored, Reach-linked,
}
use git_lfs_server.Tests.{oid, repo, digest, body, params}
use git_lfs_server.Tests.Tables.{constant, place, linked-IsSound, stored, both, held, repo_eq}

abbrev pub cache : Cache (Unit {0})
cache = record { get = λ key a. (miss, a); set = λ key perm ttl a. a }

abbrev site : Lfsd (Unit {0}) (Unit {0})
site = record {
  forges = λ h. some (skip_auth_provider none);
  storages = both;
  config = record { external_url = str "e"; max_object_size = pos 0 };
  sha256 = digest;
  cache = cache;
}

abbrev state : State (Unit {0}) (Unit {0})
state = record { world = held; net = tt }

abbrev upload_request : Request
upload_request = record {
  params = params;
  basic_auth = some (str "u", str "t");
  call = put_object (pos 3) body;
}

serve-IsAllowed_example :
    IsUnchanged state.world.db (serve site upload_request state).1.world.db
    ⊎ ((perm : Permission) × IsAllowed digest cache site.forges params
          (some (str "u", str "t"))
          tt
          perm
        × (may_write perm ≡ true))
serve-IsAllowed_example = serve-IsAllowed site upload_request state

abbrev Every : Str → Type 0
Every r = Unit {0}

-- The upload, and a sweep after it.
abbrev served : State (Unit {0}) (Unit {0})
served = (serve site upload_request state).1

abbrev swept : State (Unit {0}) (Unit {0})
swept = record served {
  world = git_lfs_server.Janitor.sweep (proxier constant ∷ []) not_locked not_locked served.world;
}

swept-Reach : Reach site Every state swept
swept-Reach =
    cleans (serves begins upload_request (λ r g. tt)) (proxier constant ∷ []) not_locked not_locked

Reach-IsSound_example : IsSound swept.world.db
Reach-IsSound_example = Reach-IsSound site Every state swept linked-IsSound swept-Reach

Reach-IsStored_example : IsStored repo oid (pos 3) place swept.world.db
Reach-IsStored_example =
    Reach-IsStored site Every state swept repo oid (pos 3) place linked-IsSound stored swept-Reach

others : (r : Str) → Grants site upload_request state r → r ≢ []
unfolding str
others r g e = let named = sym e ∙ g.2 ∙ repo_eq in cc

unnamed-Reach : Reach site (λ r. r ≢ []) state swept
unnamed-Reach =
    cleans (serves begins upload_request others) (proxier constant ∷ []) not_locked not_locked

Reach-linked_example : (view swept.world.db).linked [] oid ≡ (view state.world.db).linked [] oid
Reach-linked_example = Reach-linked site state swept [] oid linked-IsSound unnamed-Reach
