-- ===== src/Iox/Hex/Round.antt =====
-- encoding/hex: decoding what was encoded, and encoding what was decoded.
use git_lfs_server.Base.{
  ℕ, zero, suc, ◌+◌, ◌-◌, ◌*◌, ◌/◌, ◌%◌, ◌<◌, ◌≡◌, refl, ap, true, ◌&&◌, some, List, [], ◌∷◌, all,
  All, length, leb, arith, Bool-cases, inl, inr,
}
use git_lfs_server.Base.Text.{Str}
use git_lfs_server.Iox.Hex.{hex_digit, hex_value, hex_encode, hex_decode}
use git_lfs_server.Server.{is_hex_digit, matches_oid}

hex_value-hex_digit : (n : ℕ) → n < 16 → hex_value (hex_digit n) ≡ some n
unfolding hex_value hex_digit
hex_value-hex_digit n h = ground arith

abbrev pub AreBytes : List ℕ → Type 0
AreBytes bs = All (λ b. b < 256) bs

-- hex.DecodeString reads back the bytes that hex.EncodeToString has written.
pub hex_decode-hex_encode : (bs : List ℕ) → AreBytes bs → hex_decode (hex_encode bs) ≡ some bs
unfolding hex_encode hex_decode
hex_decode-hex_encode [] h = refl
hex_decode-hex_encode (b ∷ bs) h =
    let high = hex_value-hex_digit (b / 16) (omega (arith, h.0)) in
    let low = hex_value-hex_digit (b % 16) (omega arith) in
    let rest = hex_decode-hex_encode bs h.1 in
    let byte : b / 16 * 16 + b % 16 ≡ b = omega arith in
    rw (high, low, rest) (ap (λ x. some (x ∷ bs)) byte)

digit-value :
    (c : ℕ)
    → is_hex_digit c ≡ true
    → (n : ℕ) × (n < 16) × (hex_value c ≡ some n) × (hex_digit n ≡ c)
unfolding hex_value hex_digit
digit-value c h = elim (Bool-cases (leb b'0' c && leb c b'9')) [
  | inl e ↦ (c - b'0', ground arith, ground arith, ground arith)
  | inr e ↦ (c - b'a' + 10, ground arith, ground arith, ground arith)
]

-- Pairs of digits in lower case decode, and the bytes are written with the same digits.
hex_encode-hex_decode :
    (n : ℕ) (s : Str)
    → length s ≡ n * 2
    → all is_hex_digit s ≡ true
    → (bs : List ℕ) × (hex_decode s ≡ some bs) × (length bs ≡ n) × AreBytes bs × (hex_encode bs ≡ s)
unfolding hex_encode hex_decode
hex_encode-hex_decode n [] e h = ([], refl, omega (arith, e), tt, refl)
hex_encode-hex_decode n (c ∷ []) e h = absurd (omega (arith, e))
hex_encode-hex_decode zero (c ∷ d ∷ s) e h = absurd (omega (arith, e))
hex_encode-hex_decode (suc n) (c ∷ d ∷ s) e h =
    let (x, x_small, x_of, of_x) = digit-value c (ground arith) in
    let (y, y_small, y_of, of_y) = digit-value d (ground arith) in
    let (bs, decoded, long, bytes, encoded) =
      hex_encode-hex_decode n s (omega (arith, e)) (ground arith) in
    let high : (x * 16 + y) / 16 ≡ x = omega (arith, y_small) in
    let low : (x * 16 + y) % 16 ≡ y = omega (arith, y_small) in
    (
      (x * 16 + y) ∷ bs,
      rw (x_of, y_of, decoded) refl,
      omega (arith, long),
      (omega (arith, x_small, y_small), bytes),
      rw (high, low, of_x, of_y, encoded) refl,
    )

-- An object id that matches the pattern decodes, to 32 bytes, and these are encoded as the object id.
pub hex_decode-matches_oid :
    (oid : Str)
    → matches_oid oid ≡ true
    → (bs : List ℕ) × (hex_decode oid ≡ some bs)
      × (length bs ≡ 32)
      × AreBytes bs
      × (hex_encode bs ≡ oid)
unfolding matches_oid
hex_decode-matches_oid oid h = hex_encode-hex_decode 32 oid (ground arith) (ground arith)
