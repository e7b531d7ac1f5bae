-- ===== src/Iox.antt =====
-- internal/iox and io.Copy. A reader is a state with a Read that returns the bytes read, the error,
-- and the next state.
pub mod Hex
pub mod Verdict
pub mod Equivalence
pub mod Accepts
use git_lfs_server.Base.{
  ℕ, zero, suc, Bool, true, false, not, ◌&&◌, Option, none, some, List, [], ◌∷◌, ◌++◌, is, length,
  if◌then◌else◌,
}
use git_lfs_server.Base.Int.{ℤ, pos, dec_ℤ, ltb_ℤ, add64}
use git_lfs_server.Base.Text.{Str, dec_str}
use git_lfs_server.Error.{Error, eof, unexpected_eof, size_mismatch, sha256_mismatch}
use Hex.{hex_encode}

pub record Read : Type 0 where
  pub bytes : List ℕ
  pub error : Option Error

abbrev pub Reader : Type 0 → Type 0
Reader S = S → Read × S

-- errors.Is(err, io.EOF) || errors.Is(err, io.ErrUnexpectedEOF)
abbrev pub is_end : Option Error → Bool
is_end (some eof) = true
is_end (some unexpected_eof) = true
is_end _ = false

pub record ExactSizeReader (S : Type 0) : Type 0 where
  pub r : S
  pub expected : ℤ
  pub read : ℤ

abbrev pub new_exact_size_reader : {S : Type 0} → S → ℤ → ExactSizeReader S
new_exact_size_reader r expected = record { r = r; expected = expected; read = pos 0 }

-- The error of ExactSizeReader.Read, once the total is counted.
abbrev pub exact_error : ℤ → ℤ → Option Error → Option Error
exact_error expected read e =
    if ltb_ℤ expected read
    then some (size_mismatch expected read)
    else if is_end e && not (is (dec_ℤ read expected))
    then some (size_mismatch expected read)
    else e

-- ExactSizeReader.Read
unfoldable pub exact_read : {S : Type 0} → Reader S → Reader (ExactSizeReader S)
exact_read read s =
    let (got, next) = read s.r in
    let total = add64 s.read (pos (length got.bytes)) in
    (
      record { bytes = got.bytes; error = exact_error s.expected total got.error },
      record s { r = next; read = total },
    )

-- The hasher holds what has been written to it.
pub record Sha256Reader (S : Type 0) : Type 0 where
  pub r : S
  pub hasher : List ℕ
  pub expected : Str

abbrev pub new_sha256_reader : {S : Type 0} → S → Str → Sha256Reader S
new_sha256_reader r expected = record { r = r; hasher = []; expected = expected }

abbrev pub sha256_error : Str → Str → Option Error → Option Error
sha256_error expected actual e =
    if is_end e
    then (if is (dec_str actual expected) then e else some (sha256_mismatch expected actual))
    else e

-- crypto/sha256 is a parameter: the digest of the bytes written.
module _ (sha256 : List ℕ → List ℕ) where
  -- SHA256Reader.Read
  unfoldable pub sha256_read : {S : Type 0} → Reader S → Reader (Sha256Reader S)
  sha256_read read h =
      let (got, next) = read h.r in
      let written = h.hasher ++ got.bytes in
      (
        record {
          bytes = got.bytes;
          error = sha256_error h.expected (hex_encode (sha256 written)) got.error;
        },
        record h { r = next; hasher = written },
      )

-- io.Copy: the bytes written, and the error; io.EOF is no error. Each round takes fuel.
unfoldable pub copy : {S : Type 0} → ℕ → Reader S → S → List ℕ → Option (List ℕ × Option Error)
copy zero read s out = none
copy (suc fuel) read s out =
    let (got, next) = read s in
    let written = out ++ got.bytes in
    elim got.error [
      | none ↦ copy fuel read next written
      | some eof ↦ some (written, none)
      | some e ↦ some (written, some e)
    ]

-- A request body: what its reads return, then io.EOF again and again.
unfoldable pub body_read : Reader (List Read)
body_read [] = (record { bytes = []; error = some eof }, [])
body_read (got ∷ rest) = (got, rest)
