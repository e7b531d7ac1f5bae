-- ===== src/Storage/Url/Escape.antt =====
-- net/url: what unescape makes of a character that stands for itself, and of an escaped byte.
use git_lfs_server.Base.{
  ℕ, ◌+◌, ◌*◌, ◌/◌, ◌%◌, ◌<◌, ◌≡◌, refl, ap, ◌∙◌, false, some, [], ◌∷◌, ◌==◌, arith,
}
use git_lfs_server.Base.Text.{Str}
use git_lfs_server.Iox.Hex.{hex_value}
use git_lfs_server.Storage.Url.{upper_hex, unescape}

hex_value-upper_hex : (n : ℕ) → n < 16 → hex_value (upper_hex n) ≡ some n
unfolding hex_value upper_hex
hex_value-upper_hex n h = ground arith

pub unescape-plain :
    (c : ℕ) (s t : Str)
    → (c == b'%') ≡ false
    → unescape s ≡ some t
    → unescape (c ∷ s) ≡ some (c ∷ t)
unfolding unescape
unescape-plain c [] t h e = ground arith
unescape-plain c (d ∷ []) t h e = ground arith
unescape-plain c (d ∷ f ∷ s) t h e = ground arith

unescape-escaped :
    (x y n m : ℕ) (s t : Str)
    → hex_value x ≡ some n
    → hex_value y ≡ some m
    → unescape s ≡ some t
    → unescape (b'%' ∷ x ∷ y ∷ s) ≡ some ((n * 16 + m) ∷ t)
unfolding unescape
unescape-escaped x y n m s t h k e = rw (h, k, e) refl

pub unescape-nil : unescape [] ≡ some []
unfolding unescape
unescape-nil = refl

pub unescape-byte :
    (c : ℕ) (s t : Str)
    → c < 256
    → unescape s ≡ some t
    → unescape (b'%' ∷ upper_hex (c / 16) ∷ upper_hex (c % 16) ∷ s) ≡ some (c ∷ t)
unescape-byte c s t h e =
    let high = hex_value-upper_hex (c / 16) (omega (arith, h)) in
    let low = hex_value-upper_hex (c % 16) (omega arith) in
    let byte : c / 16 * 16 + c % 16 ≡ c = omega arith in
    unescape-escaped (upper_hex (c / 16)) (upper_hex (c % 16)) (c / 16) (c % 16) s t high low e
    ∙ ap (λ x. some (x ∷ t)) byte
