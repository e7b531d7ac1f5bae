-- ===== src/App/Access.antt =====
-- cmd/lfsd/main.go: only who may write changes the tables.
use git_lfs_server.Base.{
  ◌≡◌, ◌≢◌, refl, sym, subst, ◌∙◌, ◌⊎◌, inl, inr, true, false, Option, none, some, List, [], ◌∷◌,
  Bool-cases, Option-cases,
}
use git_lfs_server.Base.Text.{Str}
use git_lfs_server.Database.Schema.{Db}
use git_lfs_server.Database.Unchanged.{IsUnchanged}
use git_lfs_server.Server.{
  Permission, World, Params, repo_name_from_context, may_write, in_db, write_lfs_error,
}
use git_lfs_server.Server.Laws.{attempt_post}
use git_lfs_server.Server.Batch.{
  BatchObject, BatchRequest, BatchConfig, Operation, upload, download, unknown, operation_of,
  batch_object, batch_objects, serve_batch, process_batch, batch_refused, look_up, oids,
}
use git_lfs_server.Server.Batch.History.{batch_refused-upload, look_up-IsUnchanged}
use git_lfs_server.Server.Refused.{serve_upload-guarded, serve_verify-guarded}
use git_lfs_server.Server.Downloads.{serve_download-IsUnchanged}
use git_lfs_server.Database.Objects.{ObjectMap}
use git_lfs_server.Auth.{Verdict, passed, answered}
use git_lfs_server.Auth.Allowed.{IsAllowed, authorize-IsAllowed}
use git_lfs_server.App.{
  Lfsd, State, Request, Call, post_batch, get_object, put_object, post_verify, handle, handled,
  permission, serve,
}

batch_objects-reads :
    (config : BatchConfig) (repo authz : Str) (op : Operation) (existing : ObjectMap)
    (os : List BatchObject) (db : Db)
    → op ≢ upload
    → (batch_objects config repo authz op existing os db).1 ≡ db
unfolding batch_objects batch_object
batch_objects-reads config repo authz op existing [] db n = refl
batch_objects-reads config repo authz upload existing (o ∷ os) db n = absurd (n refl)
batch_objects-reads config repo authz download existing (o ∷ os) db n =
    batch_objects-reads config repo authz download existing os db n
batch_objects-reads config repo authz unknown existing (o ∷ os) db n =
    batch_objects-reads config repo authz unknown existing os db n

module _ {S : Type 0} (config : BatchConfig) (c : Params) (perm : Permission) (authz : Str)
    (reader : may_write perm ≡ false) where
  process_batch-IsUnchanged :
      (req : BatchRequest) (w : World S)
      → operation_of req.operation ≢ upload
      → IsUnchanged w.db (process_batch config c perm authz req w).1.db
  unfolding process_batch write_lfs_error
  process_batch-IsUnchanged req w n =
      let looked =
        look_up-IsUnchanged (operation_of req.operation) (repo_name_from_context c)
          (oids req.objects) w.db in
      attempt_post (λ x. IsUnchanged w.db x.1.db)
        (in_db (look_up (operation_of req.operation) (repo_name_from_context c) (oids req.objects)))
        _ _ w (λ e w' h. subst (λ x. IsUnchanged w.db x.1.db) h looked)
        (λ existing w' h.
          subst (IsUnchanged w.db)
            (sym (
              batch_objects-reads config (repo_name_from_context c) authz
                (operation_of req.operation) existing req.objects w'.db n))
            (subst (λ x. IsUnchanged w.db x.1.db) h looked))

  serve_batch-IsUnchanged :
      (decoded : Option BatchRequest) (w : World S)
      → IsUnchanged w.db (serve_batch config c perm authz decoded w).1.db
  unfolding serve_batch
  serve_batch-IsUnchanged none w = refl
  serve_batch-IsUnchanged (some req) w = elim (Option-cases (batch_refused req perm)) [
    | inr (r, e) ↦ rw e refl
    | inl e ↦ rw e (
        process_batch-IsUnchanged req w
          (λ op. absurd (cc (sym reader ∙ batch_refused-upload req perm e op))))
  ]

module _ {S A : Type 0} (site : Lfsd S A) where
  handle-IsUnchanged :
      (c : Params) (perm : Permission) (call : Call) (w : World S)
      → may_write perm ≡ false
      → IsUnchanged w.db (handle site c perm call w).1.db
  handle-IsUnchanged c perm (post_batch authz decoded) w n =
      serve_batch-IsUnchanged site.config c perm authz n decoded w
  handle-IsUnchanged c perm get_object w n = serve_download-IsUnchanged c site.storages perm w
  handle-IsUnchanged c perm (put_object size body) w n =
      elim (serve_upload-guarded site.sha256 c body site.storages site.config.max_object_size perm
        size w) [
          | inl (same, _) ↦ subst (λ x. IsUnchanged w.db x.db) (sym same) refl
          | inr guards ↦ absurd (cc (sym n ∙ guards.0))
        ]
  handle-IsUnchanged c perm (post_verify decoded) w n =
      elim (serve_verify-guarded c site.storages perm decoded w) [
        | inl (same, _) ↦ subst (λ x. IsUnchanged w.db x.db) (sym same) refl
        | inr guards ↦ absurd (cc (sym n ∙ guards.0))
      ]

  -- A request leaves every row as it is, or its credentials and its repository are such that the
  -- cache or the forge of its host gives write permission for them.
  pub serve-IsAllowed :
      (req : Request) (st : State S A)
      → IsUnchanged st.world.db (serve site req st).1.world.db
        ⊎ ((perm : Permission) × IsAllowed site.sha256 site.cache site.forges req.params
              req.basic_auth st.net perm
            × (may_write perm ≡ true))
  unfolding serve
  serve-IsAllowed req st = go (permission site req st) refl
    where
      go :
          (v : Verdict × A)
          → permission site req st ≡ v
          → IsUnchanged st.world.db (handled site req v st.world).1.world.db
            ⊎ ((perm : Permission) × IsAllowed site.sha256 site.cache site.forges req.params
                  req.basic_auth st.net perm
                × (may_write perm ≡ true))
      go (answered r, net) e = inl refl
      go (passed perm, net) e = elim (Bool-cases (may_write perm)) [
        | inl may ↦ inr (
          perm,
          authorize-IsAllowed site.sha256 site.cache site.forges req.params req.basic_auth st.net
              net perm e,
          may,
        )
        | inr n ↦ inl (handle-IsUnchanged req.params perm req.call st.world n)
      ]
