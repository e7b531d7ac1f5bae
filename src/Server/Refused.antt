-- ===== src/Server/Refused.antt =====
-- The guards of the handlers: what is refused changes nothing.
use git_lfs_server.Base.{
  ℕ, ◌≡◌, refl, ◌⊎◌, inl, inr, ◌≤◌, true, false, Option, none, some, List, is_some, Option-cases,
  Bool-cases, arith,
}
use git_lfs_server.Base.Int.{ℤ, pos, ltb_ℤ}
use git_lfs_server.Iox.{Read}
use git_lfs_server.Server.{
  Permission, Response, World, Params, Storages, host_from_context, write_lfs_error, matches_oid,
  may_read, may_write, exceeds,
}
use git_lfs_server.Server.Upload.{serve_upload}
use git_lfs_server.Server.Download.{serve_download}
use git_lfs_server.Server.Verify.{VerifyRequest, serve_verify}

-- The world is as it was, and the answer is an error.
abbrev pub IsRefused : {S : Type 0} → World S → Response × World S → Type 0
IsRefused w x = (x.1 ≡ w) × (400 ≤ x.0.code)

-- An upload is refused, which changes nothing, or the permission is write, the object id matches
-- the pattern, the size is known and within the limit, and the host has a storage.
pub serve_upload-guarded :
    {S : Type 0} (sha256 : List ℕ → List ℕ) (c : Params) (body : List Read) (storages : Storages S)
    (limit : ℤ) (perm : Permission) (size : ℤ) (w : World S)
    → IsRefused w (serve_upload sha256 c body storages limit perm size w)
      ⊎ ((may_write perm ≡ true)
          × (matches_oid c.oid ≡ true)
          × (ltb_ℤ size (pos 0) ≡ false)
          × (exceeds limit size ≡ false)
          × (is_some (storages (host_from_context c)) ≡ true))
unfolding serve_upload write_lfs_error
serve_upload-guarded sha256 c body storages limit perm size w =
    elim (Option-cases (storages (host_from_context c))) [
      | inl e ↦ ground arith
      | inr (b, e) ↦ ground arith
    ]

-- A download is refused, which changes nothing, or the permission is read or write, the object id
-- matches the pattern, and the host has a storage.
pub serve_download-guarded :
    {S : Type 0} (c : Params) (storages : Storages S) (perm : Permission) (w : World S)
    → IsRefused w (serve_download c storages perm w)
      ⊎ ((may_read perm ≡ true)
          × (matches_oid c.oid ≡ true)
          × (is_some (storages (host_from_context c)) ≡ true))
unfolding serve_download write_lfs_error
serve_download-guarded c storages perm w = elim (Option-cases (storages (host_from_context c))) [
  | inl e ↦ ground arith
  | inr (b, e) ↦ ground arith
]

-- A verification is refused, which changes nothing, or the permission is write, the body is a
-- request whose object id matches the pattern, and the host has a storage.
pub serve_verify-guarded :
    {S : Type 0} (c : Params) (storages : Storages S) (perm : Permission)
    (decoded : Option VerifyRequest) (w : World S)
    → IsRefused w (serve_verify c storages perm decoded w)
      ⊎ ((may_write perm ≡ true)
          × ((req : VerifyRequest) × (decoded ≡ some req) × (matches_oid req.oid ≡ true))
          × (is_some (storages (host_from_context c)) ≡ true))
unfolding serve_verify write_lfs_error
serve_verify-guarded c storages perm none w = ground arith
serve_verify-guarded c storages perm (some req) w =
    elim (Option-cases (storages (host_from_context c))) [
      | inl e ↦ ground arith
      | inr (b, e) ↦ elim (Bool-cases (matches_oid req.oid)) [
        | inl k ↦ elim (Bool-cases (may_write perm)) [
          | inl m ↦ inr (m, (req, refl, k), rw e refl)
          | inr m ↦ ground arith
        ]
        | inr k ↦ ground arith
      ]
    ]
