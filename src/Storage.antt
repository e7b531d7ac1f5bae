-- ===== src/Storage.antt =====
-- internal/storage/storage.go: what the handlers and the janitor ask of a storage backend. `S` is
-- the state of the storage, which the methods take and return.
pub mod Url
pub mod FilePath
pub mod Filesystem
pub mod Decimal
pub mod Presign
use git_lfs_server.Base.{ℕ, Option, List}
use git_lfs_server.Base.Int.{ℤ}
use git_lfs_server.Base.Text.{Str}
use git_lfs_server.Error.{Error, Result}

-- An io.Reader, by what io.Copy from it gives: the bytes, and the error.
abbrev pub Source : Type 0
Source = List ℕ × Option Error

abbrev pub Headers : Type 0
Headers = List (Str × Str)

-- The methods of Backend. An error of Delete is `some`.
pub record Base (S : Type 0) : Type 0 where
  pub name : Str
  pub kind : Str
  pub scheme : Str
  pub delete : Str → S → Option Error × S

pub record Proxier (S : Type 0) : Type 0 where
  pub base : Base S
  pub put : Str → Source → S → Result Str × S
  -- Open, with what reading to the end gives
  pub open_uri : Str → S → Result Source × S

pub record Presigner (S : Type 0) : Type 0 where
  pub base : Base S
  pub uri : Str → Str
  pub presign_put : Str → ℤ → S → Result (Str × Headers) × S
  pub presign_get : Str → S → Result Str × S
  pub head : Str → S → Result ℤ × S

-- A Backend, as `switch b := backend.(type)` sees it.
pub data Backend (S : Type 0) : Type 0 where
  proxier : Proxier S → Backend S
  presigner : Presigner S → Backend S
  neither : Base S → Backend S

abbrev pub base : {S : Type 0} → Backend S → Base S
base (proxier p) = p.base
base (presigner p) = p.base
base (neither b) = b
