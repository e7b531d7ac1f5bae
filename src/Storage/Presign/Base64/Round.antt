-- ===== src/Storage/Presign/Base64/Round.antt =====
-- encoding/base64: a decoder of RFC 4648 reads back what EncodeToString writes.
use git_lfs_server.Base.{
  ℕ, ◌+◌, ◌-◌, ◌*◌, ◌/◌, ◌%◌, ◌<◌, ◌≡◌, refl, false, ◌&&◌, Option, none, some, List, [], ◌∷◌, leb,
  ◌==◌, arith, if◌then◌else◌,
}
use git_lfs_server.Base.Text.{Str}
use git_lfs_server.Iox.Hex.Round.{AreBytes}
use git_lfs_server.Storage.Presign.Base64.{base64_digit, base64_encode}

-- The value of a digit of the alphabet.
unfoldable pub base64_value : ℕ → Option ℕ
base64_value c =
    if leb b'A' c && leb c b'Z'
    then some (c - b'A')
    else if leb b'a' c && leb c b'z'
    then some (c - b'a' + 26)
    else if leb b'0' c && leb c b'9'
    then some (c - b'0' + 52)
    else if c == b'+'
    then some 62
    else if c == b'/'
    then some 63
    else none

abbrev one : Option ℕ → Option ℕ → Option (List ℕ)
one (some p) (some q) = some ((p * 4 + q / 16) ∷ [])
one _ _ = none

abbrev two : Option ℕ → Option ℕ → Option ℕ → Option (List ℕ)
two (some p) (some q) (some r) = some ((p * 4 + q / 16) ∷ (q % 16 * 16 + r / 4) ∷ [])
two _ _ _ = none

abbrev three : Option ℕ → Option ℕ → Option ℕ → Option ℕ → Option (List ℕ) → Option (List ℕ)
three (some p) (some q) (some r) (some s) (some bs) =
    some ((p * 4 + q / 16) ∷ (q % 16 * 16 + r / 4) ∷ (r % 4 * 64 + s) ∷ bs)
three _ _ _ _ _ = none

-- Groups of four digits, the last one padded.
unfoldable pub base64_decode : Str → Option (List ℕ)
base64_decode [] = some []
base64_decode (p ∷ q ∷ r ∷ s ∷ rest) =
    let more = base64_decode rest in
    if s == b'='
    then (if r == b'='
        then one (base64_value p) (base64_value q)
        else two (base64_value p) (base64_value q) (base64_value r))
    else three (base64_value p) (base64_value q) (base64_value r) (base64_value s) more
base64_decode _ = none

digit-value : (n : ℕ) → n < 64 → base64_value (base64_digit n) ≡ some n
unfolding base64_value base64_digit
digit-value n h = ground arith

digit-padding : (n : ℕ) → (base64_digit n == b'=') ≡ false
unfolding base64_digit
digit-padding n = ground arith

-- Decoding what base64.StdEncoding.EncodeToString has written gives the bytes back.
pub base64_decode-base64_encode :
    (bs : List ℕ) → AreBytes bs → base64_decode (base64_encode bs) ≡ some bs
unfolding base64_decode base64_encode
base64_decode-base64_encode [] h = refl
base64_decode-base64_encode (a ∷ []) h =
    let p = digit-value (a / 4) (omega (arith, h.0)) in
    let q = digit-value (a % 4 * 16) (omega arith) in
    let byte : a / 4 * 4 + a % 4 * 16 / 16 ≡ a = omega arith in rw (p, q, byte) refl
base64_decode-base64_encode (a ∷ b ∷ []) h =
    let p = digit-value (a / 4) (omega (arith, h.0)) in
    let q = digit-value (a % 4 * 16 + b / 16) (omega (arith, h.1.0)) in
    let r = digit-value (b % 16 * 4) (omega arith) in
    let pad = digit-padding (b % 16 * 4) in
    let first : a / 4 * 4 + (a % 4 * 16 + b / 16) / 16 ≡ a = omega (arith, h.1.0) in
    let second : (a % 4 * 16 + b / 16) % 16 * 16 + b % 16 * 4 / 4 ≡ b = omega (arith, h.1.0) in
    rw (pad, p, q, r, first, second) refl
base64_decode-base64_encode (a ∷ b ∷ c ∷ rest) h =
    let p = digit-value (a / 4) (omega (arith, h.0)) in
    let q = digit-value (a % 4 * 16 + b / 16) (omega (arith, h.1.0)) in
    let r = digit-value (b % 16 * 4 + c / 64) (omega (arith, h.1.1.0)) in
    let s = digit-value (c % 64) (omega arith) in
    let pad = digit-padding (c % 64) in
    let more = base64_decode-base64_encode rest h.1.1.1 in
    let first : a / 4 * 4 + (a % 4 * 16 + b / 16) / 16 ≡ a = omega (arith, h.1.0) in
    let second : (a % 4 * 16 + b / 16) % 16 * 16 + (b % 16 * 4 + c / 64) / 4 ≡ b =
      omega (arith, h.1.0, h.1.1.0) in
    let third : (b % 16 * 4 + c / 64) % 4 * 64 + c % 64 ≡ c = omega (arith, h.1.1.0) in
    rw (pad, p, q, r, s, more, first, second, third) refl
