-- ===== src/Janitor/Backed.antt =====
-- Sweep with one filesystem backend deletes only files of objects that have left the catalog.
use git_lfs_server.Base.{
  ◌≡◌, ◌⊎◌, refl, sym, ap, ◌∙◌, subst, Bool, true, none, some, List, [], ◌∷◌, All, All-map, is_some,
  arith, inl, inr, ℕ,
}
use git_lfs_server.Base.Int.{ℤ}
use git_lfs_server.Base.Text.{Str, is_empty}
use git_lfs_server.Error.{Result, ok, err}
use git_lfs_server.Database.Schema.{Object}
use git_lfs_server.Database.Exec.{Exec}
use git_lfs_server.Database.Invariant.{IsSound}
use git_lfs_server.Database.Objects.{deref, sweep_orphan_objects, sweep_unreferenced_objects}
use git_lfs_server.Database.Sweeps.Orphans.{sweep_orphan_objects-IsSound}
use git_lfs_server.Database.Catalog.{Catalog, Forgets, drop_objects, view}
use git_lfs_server.Database.Catalog.Sweeps.{
  sweep_orphan_objects-refines, sweep_unreferenced_objects-Forgets,
}
use git_lfs_server.Database.Catalog.Taken.{
  IsTaken, sweep_orphan_objects-IsTaken, sweep_unreferenced_objects-IsTaken,
}
use git_lfs_server.Storage.{Backend, proxier}
use git_lfs_server.Forge.Allowlist.{ok-injective}
use git_lfs_server.Storage.FilePath.Clean.{slashless}
use git_lfs_server.Storage.Filesystem.{
  Fs, FilesystemBackend, filesystem_proxier, storage_path, uri_from_path, path_from_uri, delete,
}
use git_lfs_server.Storage.Filesystem.Draws.{delete-files}
use git_lfs_server.Storage.Filesystem.Paths.{storage_path-injective}
use git_lfs_server.Storage.Filesystem.Uris.{IsReadable, path_from_uri-uri_from_path}
use git_lfs_server.Server.{World, matches_oid}
use git_lfs_server.Server.Backed.{IsIntact, AreFiled, IsHeld}
use git_lfs_server.Janitor.Sweep.{pass-db}
use git_lfs_server.Janitor.{
  delete_object, delete_objects, delete_presigned, delete_by_uri, pass, swept, sweep, orphan_age,
  sweep_batch_size,
}

module _ (host_ok : Str → Bool) (cwd : Str) (sha256 : List ℕ → List ℕ) (b : FilesystemBackend)
    (r : IsReadable b) (fine : host_ok [] ≡ true) where
  abbrev pub storages : List (Backend Fs)
  storages = proxier (filesystem_proxier host_ok cwd b) ∷ []

  -- Deleting leaves whole files whole.
  delete-IsIntact :
      (uri : Str) (fs : Fs)
      → IsIntact sha256 b fs
      → IsIntact sha256 b (delete host_ok cwd b uri fs).1
  delete-IsIntact uri fs k = record {
    hashed = λ oid bytes v h. elim (delete-files host_ok cwd b uri (storage_path b oid) fs).1 [
      | inl same ↦ k.hashed oid bytes v (sym same ∙ h)
      | inr (e, gone) ↦ absurd (cc (h, gone))
    ];
    drawn =
        subst (λ x. All (λ q. slashless q ≡ true) x)
          (sym (delete-files host_ok cwd b uri (storage_path b []) fs).0) k.drawn;
  }

  -- Deleting the object of a URI that is not in the catalog.
  delete-AreFiled :
      (c : Catalog) (oid uri : Str) (fs : Fs)
      → matches_oid oid ≡ true
      → uri ≡ uri_from_path b (storage_path b oid)
      → c.object oid ≡ none
      → AreFiled sha256 b c fs
      → AreFiled sha256 b c (delete host_ok cwd b uri fs).1
  delete-AreFiled c oid uri fs v named free old other size u h =
      let k = old other size u h in
      record {
        valid = k.valid;
        located = k.located;
        filed = elim (delete-files host_ok cwd b uri (storage_path b other) fs).1 [
          | inl same ↦ ap is_some same ∙ k.filed
          | inr (e, gone) ↦
              let read = path_from_uri-uri_from_path host_ok cwd b r oid v fine in
              let at_ : path_from_uri host_ok cwd b uri ≡ ok (storage_path b oid) =
                ap (path_from_uri host_ok cwd b) named ∙ read in
              let same =
                storage_path-injective b r.tidy oid other v k.valid (ok-injective (sym at_ ∙ e)) in
              absurd (cc (h, ap c.object same, free))
        ];
      }

  -- A row whose deletion concerns no entry of the catalog.
  abbrev IsDoomed : Catalog → Object → Type 0
  IsDoomed c o =
      (o.object_uri ≡ none)
      ⊎ ((uri : Str) × (o.object_uri ≡ some uri)
          × (matches_oid o.oid ≡ true)
          × (uri ≡ uri_from_path b (storage_path b o.oid))
          × (c.object o.oid ≡ none))

  taken-IsDoomed :
      (before after : Catalog) (fs : Fs) (o : Object)
      → AreFiled sha256 b before fs
      → IsTaken before after o
      → IsDoomed after o
  taken-IsDoomed before after fs o filed (inl e) = inl e
  taken-IsDoomed before after fs o filed (inr (size, uri, e, there, gone)) =
      let k = filed o.oid size uri there in inr (uri, e, k.valid, k.located, gone)

  abbrev IsSafe : Catalog → Fs → Type 0
  IsSafe c fs = AreFiled sha256 b c fs × IsIntact sha256 b fs

  delete_object-IsSafe :
      (c : Catalog) (o : Object) (fs : Fs)
      → IsDoomed c o
      → IsSafe c fs
      → IsSafe c (delete_object storages o fs)
  unfolding delete_object delete_by_uri delete_presigned deref filesystem_proxier is_empty
  delete_object-IsSafe c o fs (inl e) k = rw e k
  delete_object-IsSafe c o fs (inr (uri, e, v, named, free)) k =
      let done : IsSafe c (delete host_ok cwd b uri fs).1 =
        (delete-AreFiled c o.oid uri fs v named free k.0, delete-IsIntact uri fs k.1) in
      ground arith

  delete_objects-IsSafe :
      (c : Catalog) (os : List Object) (fs : Fs)
      → All (IsDoomed c) os
      → IsSafe c fs
      → IsSafe c (delete_objects storages os fs)
  unfolding delete_objects
  delete_objects-IsSafe c [] fs d k = k
  delete_objects-IsSafe c (o ∷ os) fs d k =
      delete_objects-IsSafe c os (delete_object storages o fs) d.1
        (delete_object-IsSafe c o fs d.0 k)

  -- A pass that only takes entries out of the catalog, and returns rows that it has taken.
  pass-IsHeld :
      (m : Exec (List Object)) (w : World Fs)
      → ((oid : Str) (e : ℤ × Str)
          → (view (m w.db).1).object oid ≡ some e
          → (view w.db).object oid ≡ some e)
      → ((rows : List Object)
          → (m w.db).0 ≡ ok rows
          → All (IsTaken (view w.db) (view (m w.db).1)) rows)
      → IsHeld sha256 b w
      → IsHeld sha256 b (pass storages m w)
  unfolding pass
  pass-IsHeld m w fewer taken held = go (m w.db).0 refl
    where
      left : AreFiled sha256 b (view (m w.db).1) w.store
      left oid size uri h = held.0 oid size uri (fewer oid (size, uri) h)

      go :
          (res : Result (List Object))
          → (m w.db).0 ≡ res
          → IsHeld sha256 b (swept storages (res, record w { db = (m w.db).1 }))
      go (err e) h = (left, held.1)
      go (ok rows) h =
          delete_objects-IsSafe (view (m w.db).1) rows w.store
            (All-map rows (λ o t. taken-IsDoomed (view w.db) (view (m w.db).1) w.store o held.0 t)
              (taken rows h))
            (left, held.1)

  Forgets-fewer :
      (c d : Catalog) (oid : Str) (e : ℤ × Str)
      → Forgets c d
      → d.object oid ≡ some e
      → c.object oid ≡ some e
  unfolding drop_objects
  Forgets-fewer c d oid e f h =
      let k : (drop_objects f.gone c).object oid ≡ some e =
        ap (λ x. x.object oid) (sym f.dropped) ∙ h in
      ground arith

  -- Whatever a sweep meets.
  pub sweep-IsHeld :
      (locked locked' : Object → Bool) (w : World Fs)
      → IsSound w.db
      → IsHeld sha256 b w
      → IsHeld sha256 b (sweep storages locked locked' w)
  unfolding sweep
  sweep-IsHeld locked locked' w s held =
      let orphans = sweep_orphan_objects locked orphan_age sweep_batch_size in
      let unreferenced = sweep_unreferenced_objects locked' sweep_batch_size in
      let w₁ = pass storages orphans w in
      let s₁ : IsSound w₁.db =
        subst IsSound (sym (pass-db storages orphans w))
          (sweep_orphan_objects-IsSound locked orphan_age sweep_batch_size w.db s) in
      let same = sweep_orphan_objects-refines locked orphan_age sweep_batch_size w.db s in
      let forgotten = sweep_unreferenced_objects-Forgets locked' sweep_batch_size w₁.db s₁ in
      pass-IsHeld unreferenced w₁
        (λ oid e h. Forgets-fewer (view w₁.db) (view (unreferenced w₁.db).1) oid e forgotten h)
        (λ rows h.
          sweep_unreferenced_objects-IsTaken locked' sweep_batch_size w₁.db (unreferenced w₁.db).1
            rows s₁ (ap (λ x. (x, (unreferenced w₁.db).1)) h))
        (pass-IsHeld orphans w (λ oid e h. ap (λ v. v.object oid) (sym same) ∙ h)
          (λ rows h.
            sweep_orphan_objects-IsTaken locked orphan_age sweep_batch_size w.db (orphans w.db).1
              rows s (ap (λ x. (x, (orphans w.db).1)) h))
          held)
