-- ===== src/Iox/Equivalence.antt =====
-- The stack of readers that an upload is copied through comes to the verdict.
use mathlib.Core.List.{append-nil}
use git_lfs_server.Base.{
  ℕ, zero, suc, ◌+◌, ◌<◌, ◌^◌, ◌≡◌, ap, ◌∙◌, true, false, Option, none, some, List, [], ◌∷◌, ◌++◌,
  length, length-append, if◌then◌else◌, arith, Bool-cases, Option-cases, inl, inr,
}
use git_lfs_server.Base.Int.{ℤ, pos, ltb_ℤ, add64_pos}
use git_lfs_server.Base.Text.{Str}
use git_lfs_server.Error.{Error, eof, size_mismatch}
use git_lfs_server.Iox.{
  Read, Reader, ExactSizeReader, exact_read, Sha256Reader, sha256_read, copy, body_read,
  exact_error, sha256_error,
}
use git_lfs_server.Iox.Hex.{hex_encode}
use git_lfs_server.Iox.Verdict.{stop, verdict, copied}

-- The bytes that a body can deliver.
abbrev pub available : List Read → ℕ
available [] = 0
available (r ∷ rs) = length r.bytes + available rs

copy-more :
    {S : Type 0} (fuel : ℕ) (read : Reader S) (s next : S) (out bytes : List ℕ)
    → read s ≡ (record { bytes = bytes; error = none }, next)
    → copy (suc fuel) read s out ≡ copy fuel read next (out ++ bytes)
unfolding copy
copy-more fuel read s next out bytes h =
    rw (ap (λ p. p.0) h, ap (λ p. p.1) h, copy) (ap (λ p. copy fuel read next (out ++ p.0.bytes)) h)

copy-end :
    {S : Type 0} (fuel : ℕ) (read : Reader S) (s next : S) (out bytes : List ℕ) (e : Error)
    → read s ≡ (record { bytes = bytes; error = some e }, next)
    → copy (suc fuel) read s out ≡ some (out ++ bytes, copied e)
unfolding copy
copy-end fuel read s next out bytes eof h =
    rw (ap (λ p. p.0) h, copy) (ap (λ p. some (out ++ p.0.bytes, none)) h)
copy-end fuel read s next out bytes e h =
    rw (ap (λ p. p.0) h, copy) (ap (λ p. some (out ++ p.0.bytes, some e)) h)

module _ (sha256 : List ℕ → List ℕ) (size : ℤ) (oid : Str) where
  -- iox.NewSHA256Reader(iox.NewExactSizeReader(body, size), oid), after the bytes `seen`
  abbrev pub stack : List ℕ → List Read → Sha256Reader (ExactSizeReader (List Read))
  stack seen body = record {
    r = record { r = body; expected = size; read = pos (length seen) };
    hasher = seen;
    expected = oid;
  }

  abbrev pub stack_read : Reader (Sha256Reader (ExactSizeReader (List Read)))
  stack_read = sha256_read sha256 (exact_read body_read)

  -- One read of the stack.
  stacked_error : List ℕ → Option Error → Option Error
  stacked_error total e =
      sha256_error oid (hex_encode (sha256 total)) (exact_error size (pos (length total)) e)

  stack_read-cons :
      (seen : List ℕ) (r : Read) (rs : List Read)
      → length seen + length r.bytes < 2 ^ 63
      → stack_read (stack seen (r ∷ rs)) ≡ (
        record { bytes = r.bytes; error = stacked_error (seen ++ r.bytes) r.error },
        stack (seen ++ r.bytes) rs,
      )
  unfolding sha256_read exact_read body_read stacked_error
  stack_read-cons seen r rs h =
      rw (add64_pos (length seen) (length r.bytes) h, ← length-append seen r.bytes)

  stacked_error-none :
      (total : List ℕ)
      → stacked_error total none ≡ (
          if ltb_ℤ size (pos (length total))
          then some (size_mismatch size (pos (length total)))
          else none)
  unfolding stacked_error
  stacked_error-none total = ground arith

  stacked_error-over :
      (total : List ℕ) (e : Option Error)
      → ltb_ℤ size (pos (length total)) ≡ true
      → stacked_error total e ≡ some (size_mismatch size (pos (length total)))
  unfolding stacked_error
  stacked_error-over total e h = rw h

  -- At an error the stack says what the verdict says.
  stacked_error-end :
      (total : List ℕ) (e : Error)
      → ltb_ℤ size (pos (length total)) ≡ false
      → stacked_error total (some e) ≡ some (stop sha256 size oid total e)
  unfolding stacked_error stop
  stacked_error-end total e h = ground arith

  stack_read-nil :
      (seen : List ℕ)
      → length seen < 2 ^ 63
      → stack_read (stack seen [])
        ≡ (record { bytes = []; error = stacked_error seen (some eof) }, stack seen [])
  unfolding sha256_read exact_read body_read stacked_error
  stack_read-nil seen h = ground (arith, add64_pos (length seen) 0, append-nil seen)

  abbrev pub stack_copy : ℕ → List ℕ → List Read → Option (List ℕ × Option Error)
  stack_copy fuel seen body = copy fuel stack_read (stack seen body) seen

  read_end :
      (fuel : ℕ) (seen bytes : List ℕ) (s : Sha256Reader (ExactSizeReader (List Read)))
      (total : List ℕ) {rs : List Read} {x : Option Error} (e : Error)
      → stack_read s ≡ (record { bytes = bytes; error = x }, stack total rs)
      → x ≡ some e
      → copy (suc fuel) stack_read s seen ≡ some (seen ++ bytes, copied e)
  read_end fuel seen bytes s total {rs} e h k =
      copy-end fuel stack_read s (stack total rs) seen bytes e
        (h ∙ ap (λ y. (record { bytes = bytes; error = y }, stack total rs)) k)

  -- Copying a body through the stack comes to the verdict on it, on fuel for one more read than the
  -- body has, if the body is shorter than 2 ^ 63 bytes.
  pub stack_copy-verdict :
      (fuel : ℕ) (seen : List ℕ) (body : List Read)
      → length body < fuel
      → length seen + available body < 2 ^ 63
      → stack_copy fuel seen body ≡ some (verdict sha256 size oid seen body)
  stack_copy-verdict zero seen body h k = absurd (omega arith)
  stack_copy-verdict (suc fuel) seen [] h k = elim (Bool-cases (ltb_ℤ size (pos (length seen)))) [
    | inl over ↦
        read_end fuel seen [] (stack seen []) seen _ (stack_read-nil seen (omega arith))
          (stacked_error-over seen (some eof) over)
        ∙ unfold verdict in rw (over, append-nil)
    | inr fits ↦
        read_end fuel seen [] (stack seen []) seen _ (stack_read-nil seen (omega arith))
          (stacked_error-end seen eof fits)
        ∙ unfold verdict in rw (fits, append-nil)
  ]
  stack_copy-verdict (suc fuel) seen (r ∷ rs) h k =
      elim (Bool-cases (ltb_ℤ size (pos (length (seen ++ r.bytes))))) [
        | inl over ↦
            read_end fuel seen r.bytes (stack seen (r ∷ rs)) (seen ++ r.bytes) _
              (stack_read-cons seen r rs (omega arith))
              (stacked_error-over (seen ++ r.bytes) r.error over)
            ∙ unfold verdict in rw over
        | inr fits ↦ elim (Option-cases r.error) [
          | inl more ↦
              copy-more fuel stack_read (stack seen (r ∷ rs)) (stack (seen ++ r.bytes) rs) seen
                r.bytes
                (stack_read-cons seen r rs (omega arith)
                  ∙ ap (λ x. (record { bytes = r.bytes; error = x }, stack (seen ++ r.bytes) rs))
                      (ap (stacked_error (seen ++ r.bytes)) more
                        ∙ stacked_error-none (seen ++ r.bytes)
                        ∙ (rw fits)))
              ∙ stack_copy-verdict fuel (seen ++ r.bytes) rs (omega arith)
                  (omega (arith, length-append seen r.bytes))
              ∙ unfold verdict in rw (fits, more, verdict)
          | inr (e, last) ↦
              read_end fuel seen r.bytes (stack seen (r ∷ rs)) (seen ++ r.bytes) _
                (stack_read-cons seen r rs (omega arith))
                (ap (stacked_error (seen ++ r.bytes)) last
                  ∙ stacked_error-end (seen ++ r.bytes) e fits)
              ∙ unfold verdict in rw (fits, last, verdict)
        ]
      ]
