-- ===== src/Database/Catalog/Durable.antt =====
-- What is stored for a repository stays stored, whatever else the database is asked to do.
use git_lfs_server.Base.{◌≡◌, ap, subst, true, none, some, arith, inl, inr, ◌⊎◌, Option-cases}
use git_lfs_server.Base.Int.{ℤ}
use git_lfs_server.Base.Text.{Str, dec_str}
use git_lfs_server.Database.Schema.{Db}
use git_lfs_server.Database.Statements.{find, has_oid}
use git_lfs_server.Database.Invariant.{IsSound}
use git_lfs_server.Database.Link.{IsStored}
use git_lfs_server.Database.Catalog.{Catalog, Forgets, view, put, store, drop_objects}
use git_lfs_server.Database.Catalog.History.{
  History, History-Evolves, Allowed, stays, stores, forgets, Evolves, here, next,
}

-- The object is in the catalog with this size and location, and the repository is linked to it.
abbrev Has : Str → Str → ℤ × Str → Catalog → Type 0
Has repo oid e c = (c.object oid ≡ some e) × (c.linked repo oid ≡ true)

put-Has :
    (repo oid name key : Str) (e new : ℤ × Str) (c : Catalog)
    → (c.object key ≡ none) ⊎ (c.object key ≡ some new)
    → Has repo oid e c
    → Has repo oid e (put name key new c)
unfolding put
put-Has repo oid name key e new c free k = elim (dec_str key oid) [
  | yes p ↦ let same = ap c.object p in ground arith
  | no p ↦ ground arith
]

store-Has :
    (repo oid name key : Str) (size : ℤ) (uri v : Str) (e : ℤ × Str) (c d : Catalog)
    → store name key size uri c ≡ some (v, d)
    → Has repo oid e c
    → Has repo oid e d
unfolding store
store-Has repo oid name key size uri v e c d h k = elim (Option-cases (c.object key)) [
  | inl free ↦
      let same : put name key (size, uri) c ≡ d = ground arith in
      subst (Has repo oid e) same (put-Has repo oid name key e (size, uri) c (inl free) k)
  | inr ((old_size, old_uri), there) ↦
      let same : put name key (old_size, old_uri) c ≡ d = ground arith in
      subst (Has repo oid e) same (put-Has repo oid name key e (old_size, old_uri) c (inr there) k)
]

Forgets-Has :
    (repo oid : Str) (e : ℤ × Str) (c d : Catalog)
    → Forgets c d
    → Has repo oid e c
    → Has repo oid e d
unfolding drop_objects
Forgets-Has repo oid e c d f k = rw f.dropped (ground (arith, f.unlinked oid repo))

Allowed-Has :
    {mine : Str → Type 0} (repo oid : Str) (e : ℤ × Str) {c d : Catalog}
    → Allowed mine c d
    → Has repo oid e c
    → Has repo oid e d
Allowed-Has repo oid e (stays same) k = rw same k
Allowed-Has repo oid e {c} {d} (stores name key size uri v m h) k =
    store-Has repo oid name key size uri v e c d h k
Allowed-Has repo oid e {c} {d} (forgets f) k = Forgets-Has repo oid e c d f k

Evolves-Has :
    {mine : Str → Type 0} (repo oid : Str) (e : ℤ × Str) {c d : Catalog}
    → Evolves mine c d
    → Has repo oid e c
    → Has repo oid e d
Evolves-Has repo oid e here k = k
Evolves-Has repo oid e (next r a) k = Allowed-Has repo oid e a (Evolves-Has repo oid e r k)

stored-Has :
    (repo oid : Str) (size : ℤ) (uri : Str) (db : Db)
    → IsStored repo oid size uri db
    → Has repo oid (size, uri) (view db)
unfolding view
stored-Has repo oid size uri db s =
    rw s.found (ground (arith, s.row_size, s.row_uri, s.verified), s.linked)

has-IsStored :
    (repo oid : Str) (size : ℤ) (uri : Str) (db : Db)
    → Has repo oid (size, uri) (view db)
    → IsStored repo oid size uri db
unfolding view
has-IsStored repo oid size uri db h = elim (Option-cases (find (has_oid oid) db.objects)) [
  | inl e ↦ absurd (cc (rw e at h.0))
  | inr (o, e) ↦
      let k = rw e at h in
      record {
        row = o;
        found = e;
        row_size = ground arith;
        row_uri = ground arith;
        verified = ground arith;
        linked = k.1;
      }
]

-- What sound tables have stored for a repository, every sequence of operations, failed statements
-- and sweeps leaves stored for it, with the same size and location.
pub History-IsStored :
    {mine : Str → Type 0} (repo oid : Str) (size : ℤ) (uri : Str) (db db' : Db)
    → IsSound db
    → History mine db db'
    → IsStored repo oid size uri db
    → IsStored repo oid size uri db'
History-IsStored repo oid size uri db db' s h stored = has-IsStored repo oid size uri db' (
    Evolves-Has repo oid (size, uri) (History-Evolves h s) (stored-Has repo oid size uri db stored))
