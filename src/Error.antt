-- ===== src/Error.antt =====
-- Go's (value, error) results. An error is its root cause, which is what errors.Is and errors.As
-- find through errors.Wrap and errors.WithStack, so that wrapping leaves it as it is.
use git_lfs_server.Base.{String}
use git_lfs_server.Base.Int.{ℤ}
use git_lfs_server.Base.Text.{Str}

pub data Error : Type 0 where
  -- database.ErrObjectNotFound
  object_not_found : Error
  -- storage.ErrNotFound
  storage_not_found : Error
  -- forge.ErrTokenInvalid
  token_invalid : Error
  -- iox.SizeMismatchError: expected, actual
  size_mismatch : ℤ → ℤ → Error
  -- iox.SHA256MismatchError: expected, actual
  sha256_mismatch : Str → Str → Error
  -- io.EOF and io.ErrUnexpectedEOF
  eof unexpected_eof : Error
  -- any other cause, by the text that the source gives it
  other : String → Error

pub data Result {ℓ} (A : Type ℓ) : Type ℓ where
  ok : A → Result A
  err : Error → Result A
