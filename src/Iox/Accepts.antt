-- ===== src/Iox/Accepts.antt =====
-- An upload's body is accepted exactly when it ends well, has the announced size and hashes to the
-- object id.
use mathlib.Core.List.{append-nil, append_assoc}
use git_lfs_server.Base.{
  ℕ, suc, ◌<◌, ◌^◌, ◌≡◌, ◌≢◌, ◌↔◌, ap, sym, ◌∙◌, true, false, Option, none, some, List, [], ◌∷◌,
  ◌++◌, length, length-append, arith, Bool-cases, Option-cases, inl, inr,
}
use git_lfs_server.Base.Int.{ℤ, pos, ltb_ℤ}
use git_lfs_server.Base.Text.{Str}
use git_lfs_server.Error.{Error, eof, size_mismatch, sha256_mismatch}
use git_lfs_server.Iox.{Read, copy, is_end, new_sha256_reader, new_exact_size_reader}
use git_lfs_server.Iox.Hex.{hex_encode}
use git_lfs_server.Iox.Verdict.{stop, verdict, delivered, final, copied}
use git_lfs_server.Iox.Equivalence.{stack_read, stack_copy-verdict, available}

module _ (sha256 : List ℕ → List ℕ) (size : ℤ) (oid : Str) where
  -- The bytes are those that the request announces, whole.
  abbrev pub IsAnnounced : List ℕ → Error → Type 0
  IsAnnounced total e = (e ≡ eof) × (size ≡ pos (length total)) × (hex_encode (sha256 total) ≡ oid)

  stop-eof :
      (total : List ℕ) (e : Error)
      → (copied (stop sha256 size oid total e) ≡ none) ↔ IsAnnounced total e
  unfolding stop
  stop-eof total e = ground arith

  fits_of_size :
      (total rest : List ℕ)
      → size ≡ pos (length (total ++ rest))
      → ltb_ℤ size (pos (length total)) ≡ false
  fits_of_size total rest h = rw h (ground (arith, length-append total rest))

  abbrev rest_of : Read → List Read → List ℕ
  rest_of r rs = elim r.error [ none ↦ delivered rs | some e ↦ [] ]

  delivered-cons :
      (seen : List ℕ) (r : Read) (rs : List Read)
      → seen ++ delivered (r ∷ rs) ≡ (seen ++ r.bytes) ++ rest_of r rs
  delivered-cons seen r rs = elim (Option-cases r.error) [
    | inl e ↦ rw (e, delivered) (sym (append_assoc seen r.bytes (delivered rs)))
    | inr (x, e) ↦ rw (e, delivered) (sym (append-nil (seen ++ r.bytes)))
  ]

  -- The verdict's error is none exactly when what was announced arrives.
  verdict-eq-none :
      (seen : List ℕ) (body : List Read)
      → ((verdict sha256 size oid seen body).1 ≡ none)
        ↔ IsAnnounced (seen ++ delivered body) (final body)
  unfolding verdict
  verdict-eq-none seen [] = rw append-nil (elim (Bool-cases (ltb_ℤ size (pos (length seen)))) [
    | inl over ↦ (
      λ h. cc (rw (over, verdict) at h),
      λ a. cc (over, fits_of_size seen [] (rw append-nil a.1)),
    )
    | inr fits ↦ rw fits (stop-eof seen eof)
  ])
  verdict-eq-none seen (r ∷ rs) = elim (Bool-cases (ltb_ℤ size (pos (length (seen ++ r.bytes))))) [
    | inl over ↦ (
      λ h. cc (rw (over, verdict) at h),
      λ a. cc (
        over,
        fits_of_size (seen ++ r.bytes) (rest_of r rs)
            (a.1 ∙ ap (λ l. pos (length l)) (delivered-cons seen r rs)),
      ),
    )
    | inr fits ↦ elim (Option-cases r.error) [
      | inl more ↦ rw (fits, more, verdict, ← append_assoc) (verdict-eq-none (seen ++ r.bytes) rs)
      | inr (e, last) ↦ rw (fits, last, verdict) (stop-eof (seen ++ r.bytes) e)
    ]
  ]

  -- What is accepted is what was delivered.
  verdict-bytes :
      (seen : List ℕ) (body : List Read)
      → (verdict sha256 size oid seen body).1 ≡ none
      → (verdict sha256 size oid seen body).0 ≡ seen ++ delivered body
  unfolding verdict
  verdict-bytes seen [] h = rw append-nil (ground arith)
  verdict-bytes seen (r ∷ rs) h = elim (Bool-cases (ltb_ℤ size (pos (length (seen ++ r.bytes))))) [
    | inl over ↦ absurd (cc (rw (over, verdict) at h))
    | inr fits ↦ elim (Option-cases r.error) [
      | inl more ↦
          rw (fits, more, verdict, ← append_assoc)
            (verdict-bytes (seen ++ r.bytes) rs (rw (fits, more, verdict) at h))
      | inr (e, last) ↦ rw (fits, last, verdict)
    ]
  ]

  -- A body that ends with another size is refused for its size.
  verdict-size :
      (seen : List ℕ) (body : List Read)
      → is_end (some (final body)) ≡ true
      → size ≢ pos (length (seen ++ delivered body))
      → (actual : ℤ) × ((verdict sha256 size oid seen body).1 ≡ some (size_mismatch size actual))
  unfolding verdict stop
  verdict-size seen [] e h = (pos (length seen), ground (arith, append-nil seen))
  verdict-size seen (r ∷ rs) e h = elim (Bool-cases (ltb_ℤ size (pos (length (seen ++ r.bytes))))) [
    | inl over ↦ (pos (length (seen ++ r.bytes)), rw over)
    | inr fits ↦ elim (Option-cases r.error) [
      | inl more ↦
          let (n, k) =
            verdict-size (seen ++ r.bytes) rs (rw (more, final) at e)
              (rw append_assoc (rw (more, delivered) at h)) in
          (n, rw (fits, more, verdict) k)
      | inr (x, last) ↦ (pos (length (seen ++ r.bytes)), ground arith)
    ]
  ]

  -- A body of the announced size that ends well but hashes to something else is refused for that.
  verdict-hash :
      (seen : List ℕ) (body : List Read)
      → final body ≡ eof
      → size ≡ pos (length (seen ++ delivered body))
      → hex_encode (sha256 (seen ++ delivered body)) ≢ oid
      → (verdict sha256 size oid seen body).1
        ≡ some (sha256_mismatch oid (hex_encode (sha256 (seen ++ delivered body))))
  unfolding verdict stop
  verdict-hash seen [] e h k = ground (arith, append-nil seen)
  verdict-hash seen (r ∷ rs) e h k =
      let fits =
        fits_of_size (seen ++ r.bytes) (rest_of r rs)
          (h ∙ ap (λ l. pos (length l)) (delivered-cons seen r rs)) in
      elim (Option-cases r.error) [
        | inl more ↦
            rw (fits, more, verdict, ← append_assoc)
              (verdict-hash (seen ++ r.bytes) rs (rw (more, final) at e)
                (rw append_assoc (rw (more, delivered) at h))
                (rw append_assoc (rw (more, delivered) at k)))
        | inr (x, last) ↦ ground arith
      ]

  -- The copy that an upload makes: io.Copy from
  -- iox.NewSHA256Reader(iox.NewExactSizeReader(body, size), oid).
  abbrev pub upload_copy : List Read → Option (List ℕ × Option Error)
  upload_copy body =
      copy (suc (length body)) (stack_read sha256 size oid)
        (new_sha256_reader (new_exact_size_reader body size) oid) []

  upload_copy-verdict :
      (body : List Read)
      → available body < 2 ^ 63
      → upload_copy body ≡ some (verdict sha256 size oid [] body)
  upload_copy-verdict body small =
      stack_copy-verdict sha256 size oid (suc (length body)) [] body (omega arith) (omega arith)

  -- A body shorter than 2 ^ 63 bytes is copied without error exactly when the stream ends by
  -- io.EOF, the bytes before it are as many as announced and their SHA-256 in hex is the object
  -- id; what is copied is then these bytes.
  pub upload_copy-accepts_iff :
      (body : List Read) (bytes : List ℕ)
      → available body < 2 ^ 63
      → (upload_copy body ≡ some (bytes, none))
        ↔ ((bytes ≡ delivered body) × IsAnnounced (delivered body) (final body))
  upload_copy-accepts_iff body bytes small =
      let same = upload_copy-verdict body small in
      let (to, from) = verdict-eq-none [] body in
      (
        λ h.
            let e : verdict sha256 size oid [] body ≡ (bytes, none) = cc in
            let fine : (verdict sha256 size oid [] body).1 ≡ none = ap (λ p. p.1) e in
            (sym (ap (λ p. p.0) e) ∙ verdict-bytes [] body fine, to fine),
        λ (b, a).
            let fine = from a in
            same ∙ ap some (λ i. ((verdict-bytes [] body fine ∙ sym b) i, fine i)),
      )

  -- A body shorter than 2 ^ 63 bytes that ends by io.EOF or io.ErrUnexpectedEOF after another
  -- number of bytes than announced is refused with a SizeMismatchError that names the announced
  -- size, whatever it hashes to.
  pub upload_copy-size_mismatch :
      (body : List Read)
      → available body < 2 ^ 63
      → is_end (some (final body)) ≡ true
      → size ≢ pos (length (delivered body))
      → (bytes : List ℕ) × (actual : ℤ) × (upload_copy body
          ≡ some (bytes, some (size_mismatch size actual)))
  upload_copy-size_mismatch body small ends other =
      let (actual, e) = verdict-size [] body ends other in
      let v = verdict sha256 size oid [] body in
      (v.0, actual, upload_copy-verdict body small ∙ ap (λ x. some (v.0, x)) e)

  -- A body shorter than 2 ^ 63 bytes of the announced size that ends by io.EOF and does not hash to
  -- the object id is refused with a SHA256MismatchError that names both digests.
  pub upload_copy-sha256_mismatch :
      (body : List Read)
      → available body < 2 ^ 63
      → final body ≡ eof
      → size ≡ pos (length (delivered body))
      → hex_encode (sha256 (delivered body)) ≢ oid
      → (bytes : List ℕ) × (upload_copy body
          ≡ some (bytes, some (sha256_mismatch oid (hex_encode (sha256 (delivered body))))))
  upload_copy-sha256_mismatch body small ends right other =
      let v = verdict sha256 size oid [] body in
      (
        v.0,
        upload_copy-verdict body small
            ∙ ap (λ x. some (v.0, x)) (verdict-hash [] body ends right other),
      )
