-- ===== src/Janitor/Sweep.antt =====
-- What a sweep keeps, and which storages it knows.
use git_lfs_server.Base.{
  ◌≡◌, refl, subst, inl, inr, Bool, true, false, List, [], ◌∷◌, ◌&&◌, not, map, arith, Bool-cases,
}
use git_lfs_server.Base.Int.{ℤ}
use git_lfs_server.Base.Text.{Str, dec_str}
use git_lfs_server.Error.{Result, ok, err}
use git_lfs_server.Database.Schema.{Object}
use git_lfs_server.Database.Exec.{Exec}
use git_lfs_server.Database.Objects.{sweep_orphan_objects, sweep_unreferenced_objects}
use git_lfs_server.Database.Invariant.{IsSound}
use git_lfs_server.Database.Link.{IsStored}
use git_lfs_server.Database.Sweeps.Orphans.{
  sweep_orphan_objects-IsSound, sweep_orphan_objects-IsStored,
}
use git_lfs_server.Database.Sweeps.Unreferenced.{
  sweep_unreferenced_objects-IsSound, sweep_unreferenced_objects-IsStored,
}
use git_lfs_server.Storage.{Backend, base}
use git_lfs_server.Server.{World}
use git_lfs_server.Janitor.{
  Event, tick, cancelled, run, new, new_from, mem, pass, sweep, swept, orphan_age, sweep_batch_size,
}

abbrev pub schemes : {S : Type 0} → List (Backend S) → List Str
schemes bs = map (λ b. (base b).scheme) bs

module _ {S : Type 0} where
  pub pass-db :
      (storages : List (Backend S)) (m : Exec (List Object)) (w : World S)
      → (pass storages m w).db ≡ (m w.db).1
  unfolding pass
  pass-db storages m w = go (m w.db).0
    where
      go :
          (r : Result (List Object))
          → (swept storages (r, record w { db = (m w.db).1 })).db ≡ (m w.db).1
      go (ok rows) = refl
      go (err e) = refl

  pub sweep-db :
      (storages : List (Backend S)) (locked locked' : Object → Bool) (w : World S)
      → (sweep storages locked locked' w).db
        ≡ (sweep_unreferenced_objects locked' sweep_batch_size
            (sweep_orphan_objects locked orphan_age sweep_batch_size w.db).1).1
  unfolding sweep
  sweep-db storages locked locked' w =
      rw
        (
          pass-db storages (sweep_unreferenced_objects locked' sweep_batch_size)
              (pass storages (sweep_orphan_objects locked orphan_age sweep_batch_size) w),
          pass-db storages (sweep_orphan_objects locked orphan_age sweep_batch_size) w,
        )
        refl

  -- Sweep keeps the tables sound, and what is stored for a repository stays stored, whichever rows
  -- are locked, whichever statements fail, and whatever the storages answer.
  pub sweep-keeps :
      (storages : List (Backend S)) (locked locked' : Object → Bool) (repo oid : Str) (size : ℤ)
      (uri : Str) (w : World S)
      → IsSound w.db
      → IsStored repo oid size uri w.db
      → IsSound (sweep storages locked locked' w).db
        × IsStored repo oid size uri (sweep storages locked locked' w).db
  sweep-keeps storages locked locked' repo oid size uri w sound s =
      let first = (sweep_orphan_objects locked orphan_age sweep_batch_size w.db).1 in
      let sound₁ = sweep_orphan_objects-IsSound locked orphan_age sweep_batch_size w.db sound in
      let s₁ =
        sweep_orphan_objects-IsStored locked orphan_age sweep_batch_size repo oid size uri w.db
          sound s in
      rw (sweep-db storages locked locked' w) (
        sweep_unreferenced_objects-IsSound locked' sweep_batch_size first sound₁,
        sweep_unreferenced_objects-IsStored locked' sweep_batch_size repo oid size uri first sound₁
            s₁,
      )

abbrev pub AreDistinct : List Str → Type 0
AreDistinct [] = Unit {0}
AreDistinct (s ∷ ss) = (mem s ss ≡ false) × AreDistinct ss

module _ {S : Type 0} where
  -- The loop of New keeps the schemes that it has not seen.
  new_from-mem :
      (seen : List Str) (s : Str) (bs : List (Backend S))
      → mem s (schemes (new_from seen bs)) ≡ (not (mem s seen) && mem s (schemes bs))
  unfolding new_from
  new_from-mem seen s [] = ground arith
  new_from-mem seen s (b ∷ bs) =
      let skipped = new_from-mem seen s bs in
      let kept = new_from-mem ((base b).scheme ∷ seen) s bs in
      elim (dec_str (base b).scheme s) [
        | yes e ↦ elim (Bool-cases (mem (base b).scheme seen)) [
          | inl k ↦ let k' = subst (λ x. mem x seen ≡ true) e k in ground arith
          | inr k ↦ let k' = subst (λ x. mem x seen ≡ false) e k in ground arith
        ]
        | no ne ↦ ground arith
      ]

  new_from-distinct :
      (seen : List Str) (bs : List (Backend S)) → AreDistinct (schemes (new_from seen bs))
  unfolding new_from
  new_from-distinct seen [] = tt
  new_from-distinct seen (b ∷ bs) =
      let fresh_one = new_from-mem ((base b).scheme ∷ seen) (base b).scheme bs in
      let skipped = new_from-distinct seen bs in
      let kept = new_from-distinct ((base b).scheme ∷ seen) bs in
      elim (Bool-cases (mem (base b).scheme seen)) [
        | inl k ↦ rw k skipped
        | inr k ↦ rw k (ground arith, kept)
      ]

  -- New keeps one backend of each scheme: the schemes that it keeps are distinct, and they are the
  -- schemes of the storages.
  pub new-schemes :
      (bs : List (Backend S))
      → AreDistinct (schemes (new bs)) × ((s : Str) → mem s (schemes (new bs)) ≡ mem s (schemes bs))
  unfolding new
  new-schemes bs = (new_from-distinct [] bs, λ s. new_from-mem [] s bs)

-- Run keeps the tables sound, and what is stored for a repository stays stored, whatever it
-- receives, whichever rows are locked, whichever statements fail, and whatever the storages answer.
pub run-keeps :
    {S : Type 0} (storages : List (Backend S)) (events : List Event) (repo oid : Str) (size : ℤ)
    (uri : Str) (w : World S)
    → IsSound w.db
    → IsStored repo oid size uri w.db
    → IsSound (run storages events w).1.db × IsStored repo oid size uri (run storages events w).1.db
unfolding run
run-keeps storages [] repo oid size uri w sound s = (sound, s)
run-keeps storages (tick locked locked' ∷ events) repo oid size uri w sound s =
    let (sound', s') = sweep-keeps storages locked locked' repo oid size uri w sound s in
    run-keeps storages events repo oid size uri (sweep storages locked locked' w) sound' s'
run-keeps storages (cancelled ∷ events) repo oid size uri w sound s = (sound, s)
