-- ===== src/Server/Backed/Batch.antt =====
-- serveBatch keeps every entry of the catalog at a file of its own: the URI "ignored" that it gives
-- to LinkObject is not stored.
use git_lfs_server.Base.{
  ℕ, ◌≡◌, ◌≢◌, refl, sym, ap, ◌∙◌, subst, true, Option, none, some, List, [], ◌∷◌, is_some, arith,
  inl, inr, Option-cases, ◌&&◌, all,
}
use git_lfs_server.Base.Int.{ℤ}
use git_lfs_server.Base.Text.{Str, str}
use git_lfs_server.Error.{Result, ok, err}
use git_lfs_server.Database.Schema.{Object, Db, consistent}
use git_lfs_server.Database.Exec.{Exec}
use git_lfs_server.Database.Statements.{find, has_oid, any_oid}
use git_lfs_server.Database.Invariant.{IsSound}
use git_lfs_server.Database.Invariant.Rows.{find-consistent}
use git_lfs_server.Database.Invariant.Links.{IsSound-faults}
use git_lfs_server.Database.Objects.{ObjectMap, link_object, get_objects_by_oids}
use git_lfs_server.Database.Link.Sound.{link_object-IsSound}
use git_lfs_server.Database.Unchanged.{IsUnchanged}
use git_lfs_server.Database.Reads.{kept, get_objects_by_oids-lookup}
use git_lfs_server.Database.Catalog.{Catalog, put, entry, view, store}
use git_lfs_server.Database.Catalog.Refines.{Implements, link_object-refines}
use git_lfs_server.Storage.Filesystem.{Fs, FilesystemBackend}
use git_lfs_server.Server.{Permission, World, Params, in_db, repo_name_from_context}
use git_lfs_server.Server.Laws.{attempt_post}
use git_lfs_server.Server.Batch.History.{look_up-IsUnchanged}
use git_lfs_server.Server.Batch.{
  BatchObject, BatchRequest, BatchConfig, Operation, upload, download, unknown, operation_of,
  upload_object, batch_object, batch_objects, serve_batch, process_batch, batch_refused, look_up,
  oids,
}
use git_lfs_server.Server.Backed.{AreFiled, IsHeld, link_object-AreFiled}

abbrev pub Has : Str → Db → Type 0
Has key db = is_some ((view db).object key) ≡ true

store-is_some :
    (repo oid key : Str) (size : ℤ) (uri v : Str) (c d : Catalog)
    → store repo oid size uri c ≡ some (v, d)
    → is_some (c.object key) ≡ true
    → is_some (d.object key) ≡ true
unfolding store put
store-is_some repo oid key size uri v c d h k = ground arith

link_object-Has :
    (repo oid key : Str) (size : ℤ) (uri : Str) (db : Db)
    → IsSound db
    → Has key db
    → Has key (link_object repo oid size uri db).1
link_object-Has repo oid key size uri db s k =
    go (link_object repo oid size uri db) (link_object-refines repo oid size uri db s)
  where
    go :
        (p : Result Str × Db)
        → Implements (store repo oid size uri (view db)) (view db) p
        → Has key p.1
    go (ok v, db') h = store-is_some repo oid key size uri v (view db) (view db') h k
    go (err e, db') h = ap (λ c. is_some (c.object key)) h ∙ k

-- What the map of the verified rows has, the catalog has.
abbrev pub AreKnown : ObjectMap → Db → Type 0
AreKnown existing db = (key : Str) (o : Object) → existing key ≡ some o → Has key db

verified-entry :
    (os : List Object) (keys : List Str) (key : Str) (o : Object)
    → (r : Option Object) → find (has_oid key) os ≡ r
    → (all consistent os ≡ true)
    → kept (λ x. any_oid keys x && is_some x.verified_at) r ≡ some o
    → is_some (entry r) ≡ true
verified-entry os keys key o none e s h = cc
verified-entry os keys key o (some row) e s h =
    let fits = find-consistent (has_oid key) os row s e in ground arith

pub get_objects_by_oids-AreKnown :
    (keys : List Str) (db db' : Db) (m : ObjectMap)
    → IsSound db
    → get_objects_by_oids keys db ≡ (ok m, db')
    → AreKnown m db
unfolding view
get_objects_by_oids-AreKnown keys db db' m s h key o e =
    verified-entry db.objects keys key o (find (has_oid key) db.objects) refl s.check
      (sym (get_objects_by_oids-lookup keys db db' m key s h) ∙ e)

module _ (sha256 : List ℕ → List ℕ) (b : FilesystemBackend) (fs : Fs) (existing : ObjectMap)
    (config : BatchConfig) (repo authz : Str) where
  abbrev IsReady : Db → Type 0
  IsReady db = IsSound db × AreFiled sha256 b (view db) fs × AreKnown existing db

  link-IsReady :
      (oid : Str) (size : ℤ) (uri : Str) (db : Db)
      → Has oid db
      → IsReady db
      → IsReady (link_object repo oid size uri db).1
  link-IsReady oid size uri db there (s, filed, known) = (
    link_object-IsSound repo oid size uri db s,
    link_object-AreFiled sha256 b repo oid size uri db fs s (λ free. absurd (cc (there, free)))
        filed,
    λ key o e. link_object-Has repo oid key size uri db s (known key o e),
  )

  upload_object-IsReady :
      (o : BatchObject) (row : Option Object) (db : Db)
      → existing o.oid ≡ row
      → IsReady db
      → IsReady (upload_object config repo authz o row db).1
  unfolding upload_object
  upload_object-IsReady o none db e k = ground arith
  upload_object-IsReady o (some row) db e k =
      let linked = link-IsReady o.oid o.size (str "ignored") db (k.2 o.oid row e) k in ground arith

  batch_objects-IsReady :
      (op : Operation) (os : List BatchObject) (db : Db)
      → IsReady db
      → IsReady (batch_objects config repo authz op existing os db).1
  unfolding batch_objects batch_object
  batch_objects-IsReady op [] db k = k
  batch_objects-IsReady upload (o ∷ os) db k =
      batch_objects-IsReady upload os (upload_object config repo authz o (existing o.oid) db).1
        (upload_object-IsReady o (existing o.oid) db refl k)
  batch_objects-IsReady download (o ∷ os) db k = batch_objects-IsReady download os db k
  batch_objects-IsReady unknown (o ∷ os) db k = batch_objects-IsReady unknown os db k

  batch_objects-same :
      (op : Operation) (os : List BatchObject) (db : Db)
      → op ≢ upload
      → (batch_objects config repo authz op existing os db).1 ≡ db
  unfolding batch_objects batch_object
  batch_objects-same op [] db n = refl
  batch_objects-same upload (o ∷ os) db n = absurd (n refl)
  batch_objects-same download (o ∷ os) db n = batch_objects-same download os db n
  batch_objects-same unknown (o ∷ os) db n = batch_objects-same unknown os db n

  batch_objects-AreFiled :
      (op : Operation) (os : List BatchObject) (db : Db)
      → (op ≡ upload → AreKnown existing db)
      → IsSound db
      → AreFiled sha256 b (view db) fs
      → AreFiled sha256 b (view (batch_objects config repo authz op existing os db).1) fs
  batch_objects-AreFiled upload os db known s filed =
      (batch_objects-IsReady upload os db (s, filed, known refl)).1
  batch_objects-AreFiled download os db known s filed =
      rw (batch_objects-same download os db (λ e. cc)) filed
  batch_objects-AreFiled unknown os db known s filed =
      rw (batch_objects-same unknown os db (λ e. cc)) filed

look_up-AreKnown :
    (op : Operation) (repo : Str) (keys : List Str) (db db' : Db) (m : ObjectMap)
    → IsSound db
    → look_up op repo keys db ≡ (ok m, db')
    → op ≡ upload
    → AreKnown m db
unfolding look_up
look_up-AreKnown upload repo keys db db' m s h e = get_objects_by_oids-AreKnown keys db db' m s h
look_up-AreKnown download repo keys db db' m s h e = absurd (cc (e))
look_up-AreKnown unknown repo keys db db' m s h e = absurd (cc (e))

-- Whatever serveBatch answers, and whichever calls fail.
pub serve_batch-IsHeld :
    (sha256 : List ℕ → List ℕ) (b : FilesystemBackend) (config : BatchConfig) (c : Params)
    (perm : Permission) (authz : Str) (decoded : Option BatchRequest) (w : World Fs)
    → IsSound w.db
    → IsHeld sha256 b w
    → IsHeld sha256 b (serve_batch config c perm authz decoded w).1
unfolding serve_batch process_batch view
serve_batch-IsHeld sha256 b config c perm authz none w s held = held
serve_batch-IsHeld sha256 b config c perm authz (some req) w s held =
    elim (Option-cases (batch_refused req perm)) [
      | inr (r, e) ↦ rw e held
      | inl e ↦ rw e (
          attempt_post (λ x. IsHeld sha256 b x.1) (in_db look) _ _ w
            (λ e' w' h. subst (λ x. IsHeld sha256 b x.1) h asked)
            (λ m w' h.
              let held' = subst (λ x. IsHeld sha256 b x.1) h asked in
              let got : look w.db ≡ (ok m, w'.db) = cc (h) in
              let same : view w'.db ≡ view w.db = ap (λ x. view x.1) (sym got) ∙ looked in
              (
                batch_objects-AreFiled sha256 b w'.store m config (repo_name_from_context c) authz
                    (operation_of req.operation) req.objects w'.db
                    (λ op key o k.
                      ap (λ v. is_some (v.object key)) same
                      ∙ look_up-AreKnown (operation_of req.operation) (repo_name_from_context c)
                          (oids req.objects) w.db w'.db m s got op key o k)
                    (subst (λ x. IsSound x.1) got sound) held'.0,
                held'.1,
              )))
    ]
  where
    look : Exec ObjectMap
    look = look_up (operation_of req.operation) (repo_name_from_context c) (oids req.objects)

    unchanged : IsUnchanged w.db (look w.db).1
    unchanged =
        look_up-IsUnchanged (operation_of req.operation) (repo_name_from_context c)
          (oids req.objects) w.db

    looked : view (look w.db).1 ≡ view w.db
    looked = ap view unchanged

    sound : IsSound (look w.db).1
    sound = subst IsSound (sym unchanged) (IsSound-faults {db = w.db} (look w.db).1.faults s)

    asked : IsHeld sha256 b (in_db look w).1
    asked = (subst (λ v. AreFiled sha256 b v w.store) (sym looked) held.0, held.1)
