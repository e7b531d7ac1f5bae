-- ===== src/Server/Batch/Answers.antt =====
-- What a batch answers for each object.
use git_lfs_server.Base.{
  ◌≡◌, refl, subst, ◌≢◌, inl, inr, Option, some, List, [], ◌∷◌, map, arith, Option-cases,
}
use git_lfs_server.Base.Int.{ℤ}
use git_lfs_server.Base.Text.{Str}
use git_lfs_server.Database.Schema.{Object, Db}
use git_lfs_server.Database.Objects.{ObjectMap}
use git_lfs_server.Server.{
  Permission, BatchResponseObject, batch, Response, World, Params, repo_name_from_context,
  write_lfs_error,
}
use git_lfs_server.Server.Laws.{attempt_post}
use git_lfs_server.Server.Batch.{
  BatchObject, BatchRequest, BatchConfig, Operation, upload, download, unknown, operation_of,
  download_object, upload_object, batch_object, batch_objects, serve_batch, process_batch,
  batch_refused, offer,
}

abbrev pub named : BatchResponseObject → Str × ℤ
named r = (r.oid, r.size)

abbrev pub asked : BatchObject → Str × ℤ
asked o = (o.oid, o.size)

module _ (config : BatchConfig) (repo : Str) (authz : Str) where
  pub upload_object-named :
      (o : BatchObject) (existing : Option Object) (db : Db)
      → named (upload_object config repo authz o existing db).0 ≡ asked o
  unfolding upload_object offer
  upload_object-named o existing db = ground arith

  batch_object-named :
      (op : Operation) (existing : ObjectMap) (o : BatchObject) (db : Db)
      → named (batch_object config repo authz op existing o db).0 ≡ asked o
  unfolding batch_object download_object
  batch_object-named upload existing o db = upload_object-named o (existing o.oid) db
  batch_object-named download existing o db = ground arith
  batch_object-named unknown existing o db = refl

  batch_objects-named :
      (op : Operation) (existing : ObjectMap) (os : List BatchObject) (db : Db)
      → map named (batch_objects config repo authz op existing os db).0 ≡ map asked os
  unfolding batch_objects
  batch_objects-named op existing [] db = refl
  batch_objects-named op existing (o ∷ os) db =
      let (out, db') = batch_object config repo authz op existing o db in
      cc (batch_object-named op existing o db, batch_objects-named op existing os db')

pub batch-injective : (a b : List BatchResponseObject) → batch a ≡ batch b → a ≡ b
batch-injective a b h = cc

pub refused_not_batch :
    (req : BatchRequest) (perm : Permission) (r : Response)
    → batch_refused req perm ≡ some r
    → (out : List BatchResponseObject) → r.body ≢ batch out
unfolding batch_refused write_lfs_error
refused_not_batch req perm r h out k = ground arith

module _ {S : Type 0} (config : BatchConfig) (c : Params) (perm : Permission) (authz : Str) where
  -- An answer that is a batch has an entry for every object.
  abbrev AnswersAll : BatchRequest → Response × World S → Type 0
  AnswersAll req x =
      (out : List BatchResponseObject)
      → x.0.body ≡ batch out
      → map named out ≡ map asked req.objects

  process_batch-named :
      (req : BatchRequest) (w : World S) → AnswersAll req (process_batch config c perm authz req w)
  unfolding process_batch write_lfs_error
  process_batch-named req w =
      attempt_post (AnswersAll req) _ _ _ w (λ e w' h out k. absurd (cc))
        (λ existing w' h out k.
          let same =
            batch_objects-named config (repo_name_from_context c) authz (operation_of req.operation)
              existing req.objects w'.db in
          subst (λ l. map named l ≡ map asked req.objects) (batch-injective _ out k) same)

  -- serveBatch that answers with a batch answers for every object of the request, once, in order,
  -- under its object id and size.
  pub serve_batch-answers_all :
      (req : BatchRequest) (w : World S) (out : List BatchResponseObject)
      → (serve_batch config c perm authz (some req) w).0.body ≡ batch out
      → map named out ≡ map asked req.objects
  unfolding serve_batch
  serve_batch-answers_all req w out h = elim (Option-cases (batch_refused req perm)) [
    | inl e ↦ process_batch-named req w out (rw e at h)
    | inr (r, e) ↦ absurd (refused_not_batch req perm r e out (rw e at h))
  ]
