-- ===== src/Database/Catalog/Isolation.antt =====
-- Repositories are apart: storing an object for one links no other to it.
use git_lfs_server.Base.{◌≡◌, refl, subst, ◌∙◌, ◌≢◌, some, arith, inl, inr, Option-cases}
use git_lfs_server.Base.Int.{ℤ}
use git_lfs_server.Base.Text.{Str}
use git_lfs_server.Database.Schema.{Db}
use git_lfs_server.Database.Invariant.{IsSound}
use git_lfs_server.Database.Catalog.{Catalog, view, put, store, drop_objects}
use git_lfs_server.Database.Catalog.History.{
  History, History-Evolves, Allowed, stays, stores, forgets, Evolves, here, next,
}

put-linked :
    (name key repo oid : Str) (e : ℤ × Str) (c : Catalog)
    → name ≢ repo
    → (put name key e c).linked repo oid ≡ c.linked repo oid
unfolding put
put-linked name key repo oid e c n = ground arith

store-linked :
    (name key repo oid : Str) (size : ℤ) (uri v : Str) (c d : Catalog)
    → name ≢ repo
    → store name key size uri c ≡ some (v, d)
    → d.linked repo oid ≡ c.linked repo oid
unfolding store
store-linked name key repo oid size uri v c d n h = elim (Option-cases (c.object key)) [
  | inl free ↦
      let same : put name key (size, uri) c ≡ d = ground arith in
      rw (← same) (put-linked name key repo oid (size, uri) c n)
  | inr ((old_size, old_uri), there) ↦
      let same : put name key (old_size, old_uri) c ≡ d = ground arith in
      rw (← same) (put-linked name key repo oid (old_size, old_uri) c n)
]

Allowed-linked :
    {mine : Str → Type 0} (repo oid : Str) {c d : Catalog}
    → ¬ mine repo
    → Allowed mine c d
    → d.linked repo oid ≡ c.linked repo oid
unfolding drop_objects
Allowed-linked repo oid n (stays same) = rw same refl
Allowed-linked {mine = mine} repo oid {c} {d} n (stores name key size uri v m h) =
    store-linked name key repo oid size uri v c d (λ e. n (subst mine e m)) h
Allowed-linked repo oid n (forgets f) = rw f.dropped refl

Evolves-linked :
    {mine : Str → Type 0} (repo oid : Str) {c d : Catalog}
    → ¬ mine repo
    → Evolves mine c d
    → d.linked repo oid ≡ c.linked repo oid
Evolves-linked repo oid n here = refl
Evolves-linked repo oid n (next r a) = Allowed-linked repo oid n a ∙ Evolves-linked repo oid n r

-- A sequence of operations on sound tables, none of which stores an object for the repository,
-- leaves the repository linked to the same objects, whatever is stored for others and swept.
pub History-linked :
    {mine : Str → Type 0} (repo oid : Str) (db db' : Db)
    → ¬ mine repo
    → IsSound db
    → History mine db db'
    → (view db').linked repo oid ≡ (view db).linked repo oid
History-linked repo oid db db' n s h = Evolves-linked repo oid n (History-Evolves h s)
