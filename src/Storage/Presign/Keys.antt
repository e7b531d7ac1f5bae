-- ===== src/Storage/Presign/Keys.antt =====
-- URI and keyFromURI of internal/storage/s3_presign.go: one reads what the other writes.
use git_lfs_server.Base.{
  ℕ, ◌≡◌, refl, inl, inr, false, none, some, [], ◌∷◌, ◌++◌, arith, Option-cases,
}
use git_lfs_server.Base.Text.{Str, cut, cut_prefix, is_empty}
use git_lfs_server.Error.{ok}
use git_lfs_server.Storage.Presign.{S3PresignBackend, uri, key_from_uri, key_from_rest}

cut_prefix-append : (p s : Str) → cut_prefix (p ++ s) p ≡ some s
unfolding cut_prefix
cut_prefix-append [] [] = refl
cut_prefix-append [] (c ∷ s) = refl
cut_prefix-append (a ∷ p) s = let ih = cut_prefix-append p s in ground arith

cut_prefix-some : (u p rest : Str) → cut_prefix u p ≡ some rest → u ≡ p ++ rest
unfolding cut_prefix
cut_prefix-some [] [] rest h = ground arith
cut_prefix-some (a ∷ u) [] rest h = ground arith
cut_prefix-some [] (c ∷ p) rest h = ground arith
cut_prefix-some (a ∷ u) (c ∷ p) rest h = let ih = cut_prefix-some u p rest in ground arith

-- A text without the separator c.
abbrev pub IsFree : ℕ → Str → Type 0
IsFree c s = cut c s ≡ none

cut-append : (c : ℕ) (l r : Str) → IsFree c l → cut c (l ++ c ∷ r) ≡ some (l, r)
unfolding cut
cut-append c [] r h = ground arith
cut-append c (a ∷ l) r h =
    let ih = cut-append c l r in
    elim (Option-cases (cut c l)) [ inl e ↦ ground arith | inr (x, e) ↦ ground arith ]

cut-some : (c : ℕ) (s l r : Str) → cut c s ≡ some (l, r) → s ≡ l ++ c ∷ r
unfolding cut
cut-some c [] l r h = ground arith
cut-some c (a ∷ s) l r h = elim (Option-cases (cut c s)) [
  | inl e ↦ ground arith
  | inr ((l', r'), e) ↦ let ih = cut-some c s l' r' e in ground arith
]

module _ {S : Type 0} (b : S3PresignBackend S) where
  -- The key of the URI of an object is its oid, where the bucket's name has no "/", which S3 does
  -- not allow, and the oid is not empty.
  pub key_from_uri-uri :
      (oid : Str)
      → IsFree b'/' b.bucket
      → is_empty oid ≡ false
      → key_from_uri b (uri b oid) ≡ ok oid
  unfolding key_from_uri uri
  key_from_uri-uri oid free full =
      rw
        (
          cut_prefix-append b.scheme (b.bucket ++ b'/' ∷ oid),
          cut-append b'/' b.bucket oid free,
          full,
        )
        (ground arith)

  key_of-ok :
      (u rest key : Str)
      → u ≡ b.scheme ++ rest
      → key_from_rest b (some rest) ≡ ok key
      → (u ≡ uri b key) × (is_empty key ≡ false)
  unfolding uri
  key_of-ok u rest key e h = elim (Option-cases (cut b'/' rest)) [
    | inl x ↦ ground arith
    | inr ((l, r), x) ↦ let shape = cut-some b'/' rest l r x in ground arith
  ]

  -- A URI that keyFromURI takes is the one that URI gives for the key, which is not empty: no other
  -- spelling, and no other bucket, is taken.
  pub key_from_uri-ok :
      (u key : Str) → key_from_uri b u ≡ ok key → (u ≡ uri b key) × (is_empty key ≡ false)
  unfolding key_from_uri
  key_from_uri-ok u key h = elim (Option-cases (cut_prefix u b.scheme)) [
    | inl e ↦ absurd (cc (rw e at h))
    | inr (rest, e) ↦ key_of-ok u rest key (cut_prefix-some u b.scheme rest e) (rw e at h)
  ]
