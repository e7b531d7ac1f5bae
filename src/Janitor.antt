-- ===== src/Janitor.antt =====
-- internal/janitor/janitor.go. A Go map is walked in an order that is not fixed: `storages` is the
-- list of its values in the order that the walk takes.
pub mod Sweep
pub mod Backed
use git_lfs_server.Base.{ℕ, Bool, true, false, Option, none, some, List, [], ◌∷◌, is, if◌then◌else◌}
use git_lfs_server.Base.Text.{Str, str, dec_str, has_prefix, is_empty}
use git_lfs_server.Error.{Error, Result, ok, err, other}
use git_lfs_server.Database.Schema.{Object}
use git_lfs_server.Database.Exec.{Exec}
use git_lfs_server.Database.Objects.{deref, sweep_orphan_objects, sweep_unreferenced_objects}
use git_lfs_server.Storage.{Backend, Presigner, proxier, presigner, neither, base}
use git_lfs_server.Server.{World, in_db, in_store}

-- In microseconds.
abbrev pub orphan_age : ℕ
orphan_age = 86400000000

abbrev pub sweep_batch_size : ℕ
sweep_batch_size = 100

abbrev pub mem : Str → List Str → Bool
mem s [] = false
mem s (x ∷ xs) = if is (dec_str x s) then true else mem s xs

module _ {S : Type 0} where
  -- The loop of New: the first backend of each scheme.
  unfoldable pub new_from : List Str → List (Backend S) → List (Backend S)
  new_from seen [] = []
  new_from seen (b ∷ bs) =
      let skipped = new_from seen bs in
      let kept = new_from ((base b).scheme ∷ seen) bs in
      if mem (base b).scheme seen then skipped else b ∷ kept

  -- New
  unfoldable pub new : List (Backend S) → List (Backend S)
  new storages = new_from [] storages

  -- deleteByURI
  unfoldable pub delete_by_uri : List (Backend S) → Str → S → Option Error × S
  delete_by_uri [] uri s = (some (other "no backend for uri"), s)
  delete_by_uri (b ∷ bs) uri s =
      let rest = delete_by_uri bs uri s in
      if has_prefix uri (base b).scheme then (base b).delete uri s else rest

  abbrev delete_presign : Backend S → Str → S → S
  delete_presign (proxier p) oid s = s
  delete_presign (presigner p) oid s = (p.base.delete (p.uri oid) s).1
  delete_presign (neither b) oid s = s

  -- The loop over the storages for an object that has no URI.
  unfoldable pub delete_presigned : List (Backend S) → Str → S → S
  delete_presigned [] oid s = s
  delete_presigned (b ∷ bs) oid s = delete_presigned bs oid (delete_presign b oid s)

  -- One object; its errors are only logged and counted.
  unfoldable pub delete_object : List (Backend S) → Object → S → S
  delete_object storages o s =
      if is_empty (deref o.object_uri [])
      then delete_presigned storages o.oid s
      else (delete_by_uri storages (deref o.object_uri []) s).1

  -- deleteObjects
  unfoldable pub delete_objects : List (Backend S) → List Object → S → S
  delete_objects storages [] s = s
  delete_objects storages (o ∷ os) s = delete_objects storages os (delete_object storages o s)

  abbrev pub swept : List (Backend S) → Result (List Object) × World S → World S
  swept storages (err e, w) = w
  swept storages (ok rows, w) = record w { store = delete_objects storages rows w.store }

  -- One pass: the rows that it takes from the tables, and then their objects.
  unfoldable pub pass : List (Backend S) → Exec (List Object) → World S → World S
  pass storages m w = swept storages (in_db m w)

  -- Sweep; the tests tell which rows another transaction has locked.
  unfoldable pub sweep : List (Backend S) → (Object → Bool) → (Object → Bool) → World S → World S
  sweep storages locked locked' w =
      pass storages (sweep_unreferenced_objects locked' sweep_batch_size)
        (pass storages (sweep_orphan_objects locked orphan_age sweep_batch_size) w)

-- What the select of Run receives, in the order that it receives it. A tick comes with the rows
-- that other transactions hold during its sweep.
pub data Event : Type 0 where
  tick : (Object → Bool) → (Object → Bool) → Event
  cancelled : Event

module _ {S : Type 0} (storages : List (Backend S)) where
  -- Run: whether it has returned, and the world then
  unfoldable pub run : List Event → World S → Bool × World S
  run [] w = (false, w)
  run (tick locked locked' ∷ events) w = run events (sweep storages locked locked' w)
  run (cancelled ∷ events) w = (true, w)
