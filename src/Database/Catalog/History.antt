-- ===== src/Database/Catalog/History.antt =====
-- Any sequence of the operations of internal/database/objects.go, as the server and the janitor
-- make them on one database, against the catalog.
use git_lfs_server.Base.{ℕ, ◌≡◌, refl, sym, subst, Bool, some, List}
use git_lfs_server.Base.Int.{ℤ}
use git_lfs_server.Base.Text.{Str}
use git_lfs_server.Error.{Result, ok, err}
use git_lfs_server.Database.Schema.{Object, Db}
use git_lfs_server.Database.Objects.{
  link_object, verify_object, insert_pending_object, sweep_orphan_objects,
  sweep_unreferenced_objects,
}
use git_lfs_server.Database.Invariant.{IsSound}
use git_lfs_server.Database.Unchanged.{IsUnchanged}
use git_lfs_server.Database.Link.Sound.{
  link_object-IsSound, verify_object-IsSound, insert_pending_object-IsSound,
}
use git_lfs_server.Database.Sweeps.Orphans.{sweep_orphan_objects-IsSound}
use git_lfs_server.Database.Sweeps.Unreferenced.{sweep_unreferenced_objects-IsSound}
use git_lfs_server.Database.Catalog.{Catalog, Forgets, view, store}
use git_lfs_server.Database.Catalog.Refines.{
  Implements, link_object-refines, verify_object-refines, insert_pending_object-refines,
}
use git_lfs_server.Database.Catalog.Sweeps.{
  sweep_orphan_objects-refines, sweep_unreferenced_objects-Forgets,
}

-- The repositories that objects may be stored for are those of `mine`.
--
-- One transaction that commits or rolls back, or time that passes between two: a later clock, and
-- other faults to come. A read only sends statements, which `passes` covers.
pub data Change (mine : Str → Type 0) : Db → Db → Type 0 where
  links :
      (repo oid : Str) (size : ℤ) (uri : Str) (db : Db)
      → mine repo
      → Change mine db (link_object repo oid size uri db).1
  verifies :
      (repo oid : Str) (size : ℤ) (uri : Str) (db : Db)
      → mine repo
      → Change mine db (verify_object repo oid size uri db).1
  announces : (oid : Str) (db : Db) → Change mine db (insert_pending_object oid db).1
  sweeps_orphans :
      (locked : Object → Bool) (age limit : ℕ) (db : Db)
      → Change mine db (sweep_orphan_objects locked age limit db).1
  sweeps_unreferenced :
      (locked : Object → Bool) (limit : ℕ) (db : Db)
      → Change mine db (sweep_unreferenced_objects locked limit db).1
  passes :
      (now : ℕ) (faults : List Bool) (db : Db)
      → Change mine db (record db { now = now; faults = faults })

pub data History (mine : Str → Type 0) (db : Db) : Db → Type 0 where
  start : History mine db db
  later : {mid db' : Db} → History mine db mid → Change mine mid db' → History mine db db'

-- What the catalog allows: nothing happens, an object is stored for a repository, or objects are
-- forgotten that no repository is linked to.
pub data Allowed (mine : Str → Type 0) : Catalog → Catalog → Type 0 where
  stays : {c d : Catalog} → d ≡ c → Allowed mine c d
  stores :
      {c d : Catalog} (repo oid : Str) (size : ℤ) (uri v : Str)
      → mine repo
      → store repo oid size uri c ≡ some (v, d)
      → Allowed mine c d
  forgets : {c d : Catalog} → Forgets c d → Allowed mine c d

pub data Evolves (mine : Str → Type 0) (c : Catalog) : Catalog → Type 0 where
  here : Evolves mine c c
  next : {m d : Catalog} → Evolves mine c m → Allowed mine m d → Evolves mine c d

Change-IsSound : {mine : Str → Type 0} {db db' : Db} → Change mine db db' → IsSound db → IsSound db'
Change-IsSound (links repo oid size uri db m) s = link_object-IsSound repo oid size uri db s
Change-IsSound (verifies repo oid size uri db m) s = verify_object-IsSound repo oid size uri db s
Change-IsSound (announces oid db) s = insert_pending_object-IsSound oid db s
Change-IsSound (sweeps_orphans locked age limit db) s =
    sweep_orphan_objects-IsSound locked age limit db s
Change-IsSound (sweeps_unreferenced locked limit db) s =
    sweep_unreferenced_objects-IsSound locked limit db s
Change-IsSound (passes now faults db) s = record {
  positive = s.positive;
  ids = s.ids;
  oids = s.oids;
  check = s.check;
  links = s.links;
  held = s.held;
  counted = s.counted;
}

-- Every sequence of operations, failed statements and sweeps keeps sound tables sound.
pub History-IsSound :
    {mine : Str → Type 0} {db db' : Db} → History mine db db' → IsSound db → IsSound db'
History-IsSound start s = s
History-IsSound (later h c) s = Change-IsSound c (History-IsSound h s)

allowed :
    {mine : Str → Type 0} (repo oid : Str) (size : ℤ) (uri : Str) (c : Catalog)
    (p : Result Str × Db)
    → mine repo
    → Implements (store repo oid size uri c) c p
    → Allowed mine c (view p.1)
allowed repo oid size uri c (ok v, db') m h = stores repo oid size uri v m h
allowed repo oid size uri c (err e, db') m h = stays h

Change-Allowed :
    {mine : Str → Type 0} {db db' : Db}
    → Change mine db db'
    → IsSound db
    → Allowed mine (view db) (view db')
unfolding view
Change-Allowed (links repo oid size uri db m) s =
    allowed repo oid size uri (view db) _ m (link_object-refines repo oid size uri db s)
Change-Allowed (verifies repo oid size uri db m) s =
    allowed repo oid size uri (view db) _ m (verify_object-refines repo oid size uri db s)
Change-Allowed (announces oid db) s = stays (insert_pending_object-refines oid db s)
Change-Allowed (sweeps_orphans locked age limit db) s =
    stays (sweep_orphan_objects-refines locked age limit db s)
Change-Allowed (sweeps_unreferenced locked limit db) s =
    forgets (sweep_unreferenced_objects-Forgets locked limit db s)
Change-Allowed (passes now faults db) s = stays refl

-- Every sequence of operations on sound tables, with any statements failing, is a sequence of steps
-- that the catalog allows.
pub History-Evolves :
    {mine : Str → Type 0} {db db' : Db}
    → History mine db db'
    → IsSound db
    → Evolves mine (view db) (view db')
History-Evolves start s = here
History-Evolves (later h c) s = next (History-Evolves h s) (Change-Allowed c (History-IsSound h s))

pub History-trans :
    {mine : Str → Type 0} {db mid db' : Db}
    → History mine db mid
    → History mine mid db'
    → History mine db db'
History-trans h start = h
History-trans h (later k c) = later (History-trans h k) c

pub once : {mine : Str → Type 0} {db db' : Db} → Change mine db db' → History mine db db'
once c = later start c

pub unchanged-History :
    {mine : Str → Type 0} (db db' : Db) → IsUnchanged db db' → History mine db db'
unchanged-History {mine = mine} db db' e =
    subst (History mine db) (sym e) (once (passes db.now db'.faults db))

pub History-mono :
    {mine others : Str → Type 0} {db db' : Db}
    → ((repo : Str) → mine repo → others repo)
    → History mine db db'
    → History others db db'
History-mono f start = start
History-mono f (later h c) = later (History-mono f h) (Change-mono f c)
  where
    Change-mono :
        {mine others : Str → Type 0} {db db' : Db}
        → ((repo : Str) → mine repo → others repo)
        → Change mine db db'
        → Change others db db'
    Change-mono f (links repo oid size uri db m) = links repo oid size uri db (f repo m)
    Change-mono f (verifies repo oid size uri db m) = verifies repo oid size uri db (f repo m)
    Change-mono f (announces oid db) = announces oid db
    Change-mono f (sweeps_orphans locked age limit db) = sweeps_orphans locked age limit db
    Change-mono f (sweeps_unreferenced locked limit db) = sweeps_unreferenced locked limit db
    Change-mono f (passes now faults db) = passes now faults db

pub nothing : (mine : Str → Type 0) (db : Db) → History mine db db
nothing mine db = start
