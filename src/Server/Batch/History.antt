-- ===== src/Server/Batch/History.antt =====
-- cmd/lfsd/lfs.go: what serveBatch does to the database.
use git_lfs_server.Base.{
  refl, Option, none, some, ◌≡◌, true, List, [], ◌∷◌, inl, inr, arith, Option-cases,
}
use git_lfs_server.Base.Text.{Str, str}
use git_lfs_server.Database.Schema.{Object, Db}
use git_lfs_server.Database.Objects.{ObjectMap}
use git_lfs_server.Database.Catalog.History.{
  History, start, nothing, links, once, unchanged-History, History-trans,
}
use git_lfs_server.Database.Unchanged.{
  IsUnchanged, get_objects-IsUnchanged, get_repo_objects-IsUnchanged,
}
use git_lfs_server.Server.{
  Permission, World, Params, in_db, repo_name_from_context, may_write, write_lfs_error,
}
use git_lfs_server.Server.Batch.{
  BatchObject, BatchRequest, BatchConfig, Operation, upload, download, unknown, operation_of,
  upload_object, batch_object, batch_objects, serve_batch, process_batch, batch_refused, look_up,
  oids,
}
use git_lfs_server.Server.History.{May, attempt-History}

module _ (mine : Str → Type 0) (config : BatchConfig) (repo authz : Str) where
  upload_object-History :
      (o : BatchObject) (existing : Option Object) (db : Db)
      → mine repo
      → History mine db (upload_object config repo authz o existing db).1
  unfolding upload_object
  upload_object-History o none db m = ground (arith, nothing mine db)
  upload_object-History o (some row) db m =
      ground
        (arith, nothing mine db, once {mine = mine} (links repo o.oid o.size (str "ignored") db m))

  batch_object-History :
      (op : Operation) (existing : ObjectMap) (o : BatchObject) (db : Db)
      → (op ≡ upload → mine repo)
      → History mine db (batch_object config repo authz op existing o db).1
  unfolding batch_object
  batch_object-History upload existing o db m = upload_object-History o (existing o.oid) db (m refl)
  batch_object-History download existing o db m = start
  batch_object-History unknown existing o db m = start

  batch_objects-History :
      (op : Operation) (existing : ObjectMap) (os : List BatchObject) (db : Db)
      → (op ≡ upload → mine repo)
      → History mine db (batch_objects config repo authz op existing os db).1
  unfolding batch_objects
  batch_objects-History op existing [] db m = start
  batch_objects-History op existing (o ∷ os) db m =
      History-trans (batch_object-History op existing o db m)
        (batch_objects-History op existing os (batch_object config repo authz op existing o db).1 m)

pub look_up-IsUnchanged :
    (op : Operation) (repo : Str) (keys : List Str) (db : Db)
    → IsUnchanged db (look_up op repo keys db).1
unfolding look_up
look_up-IsUnchanged upload repo keys db = get_objects-IsUnchanged keys db
look_up-IsUnchanged download repo keys db = get_repo_objects-IsUnchanged repo keys db
look_up-IsUnchanged unknown repo keys db = refl

pub batch_refused-upload :
    (req : BatchRequest) (perm : Permission)
    → batch_refused req perm ≡ none
    → operation_of req.operation ≡ upload
    → may_write perm ≡ true
unfolding batch_refused
batch_refused-upload req perm h e = ground arith

pub serve_batch-History :
    {S : Type 0} (config : BatchConfig) (c : Params) (perm : Permission) (authz : Str)
    (decoded : Option BatchRequest) (w : World S)
    → History (May c perm) w.db (serve_batch config c perm authz decoded w).1.db
unfolding serve_batch process_batch write_lfs_error
serve_batch-History config c perm authz none w = start
serve_batch-History config c perm authz (some req) w =
    elim (Option-cases (batch_refused req perm)) [
      | inr (r, e) ↦ rw e start
      | inl e ↦ rw e (
          attempt-History
            (in_db
              (look_up (operation_of req.operation) (repo_name_from_context c) (oids req.objects)))
            _ _ w
            (λ existing w'.
              batch_objects-History (May c perm) config (repo_name_from_context c) authz
                (operation_of req.operation) existing req.objects w'.db
                (λ op. (refl, batch_refused-upload req perm e op)))
            (unchanged-History w.db _ (
              look_up-IsUnchanged (operation_of req.operation) (repo_name_from_context c)
                (oids req.objects) w.db)))
    ]
