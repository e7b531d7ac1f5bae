-- ===== src/Server/Stored.antt =====
-- What a client may conclude from the success of an upload or of a verification.
use git_lfs_server.Base.{
  ℕ, ◌≡◌, ap, ◌∙◌, sym, ◌≢◌, subst, inl, inr, some, List, Bool-cases, Option-cases, arith,
}
use git_lfs_server.Base.Int.{ℤ}
use git_lfs_server.Base.Text.{Str}
use git_lfs_server.Error.{Error, Result, ok}
use git_lfs_server.Database.Exec.{Exec}
use git_lfs_server.Database.Objects.{link_object, verify_object, insert_pending_object}
use git_lfs_server.Database.Link.{IsStored}
use git_lfs_server.Database.Link.Outcome.{link_object-IsStored, verify_object-IsStored}
use git_lfs_server.Iox.{Read}
use git_lfs_server.Iox.Accepts.{upload_copy}
use git_lfs_server.Storage.{Proxier, Presigner, proxier, presigner, neither}
use git_lfs_server.Server.{
  Permission, Response, World, Params, Storages, Handler, in_db, in_store, repo_name_from_context,
  host_from_context, write_lfs_error,
}
use git_lfs_server.Server.Laws.{attempt_post}
use git_lfs_server.Server.Upload.{
  source_of, is_verified, put_failed, serve_upload_proxy, serve_upload_presign, serve_upload,
  stored_at,
}
use git_lfs_server.Server.Verify.{
  VerifyRequest, serve_verify, serve_verify_presign, verified_at_uri, mark_head, compare_size,
  head_failed,
}

pub in_db-ok :
    {S A : Type 0} (m : Exec A) (w w' : World S) (a : A)
    → in_db m w ≡ (ok a, w')
    → m w.db ≡ (ok a, w'.db)
in_db-ok m w w' a h = cc (h)

module _ {S : Type 0} (c : Params) where
  -- The object of the request is stored with this size.
  abbrev pub Keeps : Str → ℤ → World S → Type 0
  Keeps oid size w = (uri : Str) × IsStored (repo_name_from_context c) oid size uri w.db

  abbrev Keeps204 : Str → ℤ → Response × World S → Type 0
  Keeps204 oid size x = x.0.code ≡ 204 → Keeps oid size x.1

pub put_failed-code : (e : Error) → (put_failed e).code ≢ 204
unfolding write_lfs_error
put_failed-code e h = ground arith

module _ {S : Type 0} (sha256 : List ℕ → List ℕ) (c : Params) (body : List Read) where
  stored_at-db :
      (b : Proxier S) (uri stored : Str) (w : World S)
      → (stored_at sha256 c body b uri stored w).1.db ≡ w.db
  stored_at-db b uri stored w = ground arith

  serve_upload_proxy-keeps :
      (b : Proxier S) (size : ℤ) (w : World S)
      → Keeps204 c c.oid size (serve_upload_proxy sha256 c body b size w)
  unfolding serve_upload_proxy write_lfs_error
  serve_upload_proxy-keeps b size w =
      attempt_post (Keeps204 c c.oid size)
        (in_store (b.put c.oid (source_of (upload_copy sha256 size c.oid body)))) _ _ w
        (λ e w' h k. absurd (put_failed-code e k))
        (λ uri w' h.
          attempt_post (Keeps204 c c.oid size)
            (in_db (link_object (repo_name_from_context c) c.oid size uri)) _ _ w'
            (λ e w'' h' k. absurd (omega arith))
            (λ stored w'' h' k. (
              stored,
              subst (IsStored (repo_name_from_context c) c.oid size stored)
                  (sym (stored_at-db b uri stored w''))
                  (link_object-IsStored (repo_name_from_context c) c.oid size uri stored w'.db
                    w''.db
                    (in_db-ok (link_object (repo_name_from_context c) c.oid size uri) w' w'' stored
                      h')),
            )))

  serve_upload_presign-code :
      (b : Presigner S) (size : ℤ) (w : World S)
      → (serve_upload_presign sha256 c body b size w).0.code ≢ 204
  unfolding serve_upload_presign write_lfs_error
  serve_upload_presign-code b size w =
      attempt_post (λ x. x.0.code ≢ 204) _ _ _ w (λ e w' h k. omega arith)
        (λ o w' h. elim (Bool-cases (is_verified o)) [
          | inl e ↦ rw e (λ k. omega arith)
          | inr e ↦ rw e (
              attempt_post (λ x. x.0.code ≢ 204) (in_db (insert_pending_object c.oid)) _ _ w'
                (λ e' w'' h' k. omega arith)
                (λ u w'' h'.
                  attempt_post (λ x. x.0.code ≢ 204) (in_store (b.presign_put c.oid size)) _ _ w''
                    (λ e' w₃ h₃ k. omega arith) (λ p w₃ h₃ k. omega arith)))
        ])

  -- An upload that is answered by 204 has left its object id with a verified row of the request's
  -- Content-Length, linked to the repository.
  pub serve_upload-stored :
      (storages : Storages S) (limit : ℤ) (perm : Permission) (size : ℤ) (w : World S)
      → (serve_upload sha256 c body storages limit perm size w).0.code ≡ 204
      → Keeps c c.oid size (serve_upload sha256 c body storages limit perm size w).1
  unfolding serve_upload write_lfs_error
  serve_upload-stored storages limit perm size w h =
      elim (Option-cases (storages (host_from_context c))) [
        | inl e ↦ ground arith
        | inr (proxier b, e) ↦ ground (arith, serve_upload_proxy-keeps b size w)
        | inr (presigner b, e) ↦ ground (arith, serve_upload_presign-code b size w)
        | inr (neither b, e) ↦ ground arith
      ]

head_failed-code : (e : Error) → (head_failed e).code ≢ 204
unfolding write_lfs_error
head_failed-code e h = ground arith

pub in_store-ok :
    {S A : Type 0} (m : S → Result A × S) (w w' : World S) (a : A)
    → in_store m w ≡ (ok a, w')
    → (m w.store).0 ≡ ok a
in_store-ok m w w' a h = cc (h)

module _ {S : Type 0} (c : Params) (req : VerifyRequest) where
  -- Deleting the object that was not recorded changes no row.
  verified_at-db :
      (b : Presigner S) (stored : Str) (w : World S)
      → (verified_at_uri c req b stored w).1.db ≡ w.db
  verified_at-db b stored w = ground arith

  abbrev IsConfirmed : Presigner S → World S → Response × World S → Type 0
  IsConfirmed b w x =
      x.0.code ≡ 204
      → ((b.head (b.uri req.oid) w.store).0 ≡ ok req.size) × Keeps c req.oid req.size x.1

  mark_head-keeps :
      (b : Presigner S) (w : World S) → Keeps204 c req.oid req.size (mark_head c req b w)
  unfolding write_lfs_error
  mark_head-keeps b w =
      attempt_post (Keeps204 c req.oid req.size)
        (in_db (verify_object (repo_name_from_context c) req.oid req.size (b.uri req.oid))) _ _ w
        (λ e w' h k. absurd (omega arith))
        (λ stored w' h k. (
          stored,
          subst (IsStored (repo_name_from_context c) req.oid req.size stored)
              (sym (verified_at-db b stored w'))
              (verify_object-IsStored (repo_name_from_context c) req.oid req.size (b.uri req.oid)
                stored w.db w'.db
                (in_db-ok
                  (verify_object (repo_name_from_context c) req.oid req.size (b.uri req.oid)) w w'
                  stored h)),
        ))

  compare_size-204 :
      (size : ℤ) (go : Handler S) (w : World S)
      → (compare_size c req size go w).0.code ≡ 204
      → (size ≡ req.size) × (compare_size c req size go w ≡ go w)
  unfolding write_lfs_error
  compare_size-204 size go w h = ground arith

  serve_verify_presign-keeps :
      (b : Presigner S) (w : World S) → IsConfirmed b w (serve_verify_presign c req b w)
  unfolding serve_verify_presign
  serve_verify_presign-keeps b w =
      attempt_post (IsConfirmed b w) (in_store (b.head (b.uri req.oid))) _ _ w
        (λ e w' h k. absurd (head_failed-code e k))
        (λ size w' h k.
          let (same, on) = compare_size-204 size (mark_head c req b) w' k in
          (
            in_store-ok (b.head (b.uri req.oid)) w w' size h ∙ ap ok same,
            subst (λ x. Keeps c req.oid req.size x.1) (sym on)
                (mark_head-keeps b w' (subst (λ x. x.0.code ≡ 204) on k)),
          ))

-- A verification against a presigning storage that is answered by 204 has found an object of the
-- request's size by Head, and has left its object id with a verified row of that size, linked to
-- the repository.
pub serve_verify-stored :
    {S : Type 0} (c : Params) (storages : Storages S) (perm : Permission) (req : VerifyRequest)
    (b : Presigner S) (w : World S)
    → storages (host_from_context c) ≡ some (presigner b)
    → (serve_verify c storages perm (some req) w).0.code ≡ 204
    → ((b.head (b.uri req.oid) w.store).0 ≡ ok req.size)
      × Keeps c req.oid req.size (serve_verify c storages perm (some req) w).1
unfolding serve_verify write_lfs_error
serve_verify-stored c storages perm req b w e h =
    ground (arith, serve_verify_presign-keeps c req b w)
