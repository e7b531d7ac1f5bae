-- ===== src/Iox/Verdict.antt =====
-- What an upload's body is worth, said without readers: the bytes that arrive, and what is wrong
-- with them.
use git_lfs_server.Base.{ℕ, Option, none, some, List, [], ◌∷◌, ◌++◌, is, length, if◌then◌else◌}
use git_lfs_server.Base.Int.{ℤ, pos, dec_ℤ, ltb_ℤ}
use git_lfs_server.Base.Text.{Str, dec_str}
use git_lfs_server.Error.{Error, eof, size_mismatch, sha256_mismatch}
use git_lfs_server.Iox.{Read, is_end}
use git_lfs_server.Iox.Hex.{hex_encode}

-- io.EOF is how a copy ends well.
abbrev pub copied : Error → Option Error
copied eof = none
copied e = some e

-- The bytes of a body up to its first error, and that error.
abbrev pub delivered : List Read → List ℕ
delivered [] = []
delivered (r ∷ rs) = elim r.error [ none ↦ r.bytes ++ delivered rs | some e ↦ r.bytes ]

abbrev pub final : List Read → Error
final [] = eof
final (r ∷ rs) = elim r.error [ none ↦ final rs | some e ↦ e ]

module _ (sha256 : List ℕ → List ℕ) (size : ℤ) (oid : Str) where
  -- The error at the end of the stream.
  unfoldable pub stop : List ℕ → Error → Error
  stop total e =
      if is_end (some e)
      then (if is (dec_ℤ (pos (length total)) size)
          then (if is (dec_str (hex_encode (sha256 total)) oid)
              then e
              else sha256_mismatch oid (hex_encode (sha256 total)))
          else size_mismatch size (pos (length total)))
      else e

  -- The verdict on what is still to come, after the bytes `seen`.
  unfoldable pub verdict : List ℕ → List Read → List ℕ × Option Error
  verdict seen [] =
      if ltb_ℤ size (pos (length seen))
      then (seen, some (size_mismatch size (pos (length seen))))
      else (seen, copied (stop seen eof))
  verdict seen (r ∷ rs) =
      let total = seen ++ r.bytes in
      if ltb_ℤ size (pos (length total))
      then (total, some (size_mismatch size (pos (length total))))
      else elim r.error [ none ↦ verdict total rs | some e ↦ (total, copied (stop total e)) ]
