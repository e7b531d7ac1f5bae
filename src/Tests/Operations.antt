-- ===== src/Tests/Operations.antt =====
-- The catalog, sweeps and the janitor at concrete tables.
use git_lfs_server.Base.{◌≤◌, ◌≡◌, refl, some, List, [], ◌∷◌, arith, count}
use git_lfs_server.Base.Int.{pos}
use git_lfs_server.Base.Text.{Str, str}
use git_lfs_server.Database.Schema.{Object, Db, zero_object}
use git_lfs_server.Database.Objects.{
  link_object, verify_object, sweep_orphan_objects, sweep_unreferenced_objects,
}
use git_lfs_server.Database.Statements.{is_orphan, is_unreferenced}
use git_lfs_server.Database.Invariant.{IsSound}
use git_lfs_server.Database.Link.{IsStored}
use git_lfs_server.Database.Catalog.{Forgets, view, store}
use git_lfs_server.Database.Catalog.Refines.{Implements, link_object-refines, verify_object-refines}
use git_lfs_server.Database.Catalog.Sweeps.{
  sweep_orphan_objects-refines, sweep_unreferenced_objects-Forgets,
}
use git_lfs_server.Database.Catalog.History.{
  History, start, later, links, announces, sweeps_unreferenced, Evolves, History-Evolves,
}
use git_lfs_server.Database.Sweeps.Drained.{
  repeat, not_locked, sweep_orphan_objects-drains, sweep_unreferenced_objects-drains,
}
use git_lfs_server.Janitor.{Event, tick, cancelled, run}
use git_lfs_server.Janitor.Sweep.{run-keeps}
use git_lfs_server.Storage.{proxier}
use git_lfs_server.Tests.{oid, repo, db, db-IsSound}
use git_lfs_server.Tests.Tables.{constant, place, linked, linked-IsSound, stored}

-- An object that was verified and that nothing is linked to, below one that waits for its upload.
abbrev leftover : Object
leftover = record zero_object {
  id = 1;
  oid = [];
  size = some (pos 3);
  object_uri = some (str "u");
  verified_at = some 1;
}

abbrev waiting : Object
waiting = record zero_object { id = 2; oid = 1 ∷ []; created_at = 1 }

abbrev littered : Db
littered = record db { objects = waiting ∷ leftover ∷ []; next_object_id = 3 }

littered-IsSound : IsSound littered
unfolding count
littered-IsSound = record {
  positive = omega arith;
  ids = ((omega arith, omega arith), ((omega arith, omega arith), tt));
  oids = (((λ e. cc), tt), (tt, tt));
  check = refl;
  links = tt;
  held = tt;
  counted = (refl, (refl, tt));
}

link_object-refines_example :
    Implements
      (store repo oid (pos 3) place (view db))
      (view db)
      (link_object repo oid (pos 3) place db)
link_object-refines_example = link_object-refines repo oid (pos 3) place db db-IsSound

verify_object-refines_example :
    Implements
      (store repo oid (pos 3) place (view linked))
      (view linked)
      (verify_object repo oid (pos 3) place linked)
verify_object-refines_example = verify_object-refines repo oid (pos 3) place linked linked-IsSound

sweep_orphan_objects-refines_example :
    view (sweep_orphan_objects not_locked 2 1 littered).1 ≡ view littered
sweep_orphan_objects-refines_example =
    sweep_orphan_objects-refines not_locked 2 1 littered littered-IsSound

sweep_unreferenced_objects-Forgets_example :
    Forgets (view littered) (view (sweep_unreferenced_objects not_locked 1 littered).1)
sweep_unreferenced_objects-Forgets_example =
    sweep_unreferenced_objects-Forgets not_locked 1 littered littered-IsSound

-- Every repository.
abbrev Every : Str → Type 0
Every r = Unit {0}

-- An object is stored, another is announced, and what is not referenced is swept.
abbrev grown : Db
grown =
    (sweep_unreferenced_objects not_locked 1
      (git_lfs_server.Database.Objects.insert_pending_object (str "b") linked).1).1

grown-History : History Every db grown
grown-History =
    later (later (later start (links repo oid (pos 3) place db tt)) (announces (str "b") linked))
      (sweeps_unreferenced not_locked 1 _)

History-Evolves_example : Evolves Every (view db) (view grown)
History-Evolves_example = History-Evolves grown-History db-IsSound

one_orphan : count (is_orphan 2 5) littered.objects ≤ 1
unfolding count
one_orphan = omega arith

one_unreferenced : count is_unreferenced littered.objects ≤ 1
unfolding count
one_unreferenced = omega arith

sweep_orphan_objects-drains_example :
    count
      (is_orphan 2 5)
      (repeat 1 (λ d. (sweep_orphan_objects not_locked 2 1 d).1) littered).objects
    ≡ 0
sweep_orphan_objects-drains_example =
    sweep_orphan_objects-drains 2 0 1 littered refl littered-IsSound one_orphan

sweep_unreferenced_objects-drains_example :
    count is_unreferenced
      (repeat 1 (λ d. (sweep_unreferenced_objects not_locked 1 d).1) littered).objects
    ≡ 0
sweep_unreferenced_objects-drains_example =
    sweep_unreferenced_objects-drains 0 1 littered refl littered-IsSound one_unreferenced

abbrev ticks : List Event
ticks = tick not_locked not_locked ∷ cancelled ∷ []

run-keeps_example :
    IsSound (run (proxier constant ∷ []) ticks (record { db = linked; store = tt })).1.db
    × IsStored repo oid
        (pos 3)
        place
        (run (proxier constant ∷ []) ticks (record { db = linked; store = tt })).1.db
run-keeps_example =
    run-keeps (proxier constant ∷ []) ticks repo oid (pos 3) place
      (record { db = linked; store = tt }) linked-IsSound stored
