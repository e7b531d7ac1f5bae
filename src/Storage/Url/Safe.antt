-- ===== src/Storage/Url/Safe.antt =====
-- net/url.Parse of an URI without an authority, all of whose characters stand for themselves.
use git_lfs_server.Base.{
  ℕ, ◌≡◌, refl, ap, Bool, true, false, ◌&&◌, ◌||◌, not, none, some, [], ◌∷◌, ◌++◌, ◌==◌, ltb, all,
  length, length-append, arith,
}
use git_lfs_server.Base.Text.{
  Str, dec_str, cut, to_lower, trim_suffix, cut_suffix, has_prefix, cut_prefix, is_empty,
}
use git_lfs_server.Storage.Url.{
  is_letter, is_scheme_tail, scheme, scheme_from, get_scheme, unescape, before, has_control,
  parse_rooted, parse_rest, url_parse,
}

-- A character that begins no escape, no query and no fragment, and is no control character.
abbrev pub is_safe : ℕ → Bool
is_safe c =
    not (ltb c 32) && not (c == 127) && not (c == b'%') && not (c == b'#') && not (c == b'?')

unescape-safe : (s : Str) → all is_safe s ≡ true → unescape s ≡ some s
unfolding unescape
unescape-safe [] h = refl
unescape-safe (c ∷ []) h = ground arith
unescape-safe (c ∷ d ∷ []) h = ground arith
unescape-safe (c ∷ d ∷ e ∷ s) h = ground (arith, unescape-safe (d ∷ e ∷ s))

cut-none : (c : ℕ) (s : Str) → all (λ x. not (x == c)) s ≡ true → cut c s ≡ none
unfolding cut
cut-none c [] h = refl
cut-none c (a ∷ s) h = ground (arith, cut-none c s)

before-safe : (c : ℕ) (s : Str) → all (λ x. not (x == c)) s ≡ true → before c s ≡ s
unfolding before
before-safe c s h = let e = cut-none c s h in ground arith

all_mono :
    (p q : ℕ → Bool) (s : Str)
    → ((c : ℕ) → p c ≡ true → q c ≡ true)
    → all p s ≡ true
    → all q s ≡ true
all_mono p q [] f h = refl
all_mono p q (c ∷ s) f h = ground (arith, f c, all_mono p q s f)

safe-control : (s : Str) → all is_safe s ≡ true → has_control s ≡ false
safe-control [] h = refl
safe-control (c ∷ s) h = ground (arith, safe-control s)

abbrev pub is_scheme_char : ℕ → Bool
is_scheme_char c = is_letter c || is_scheme_tail c

-- A scheme in lower case, as url.Parse gives it.
abbrev pub IsScheme : Str → Type 0
IsScheme [] = ⊥
IsScheme (c ∷ s) = (is_letter c ≡ true) × (all is_scheme_char s ≡ true) × (to_lower (c ∷ s) ≡ c ∷ s)

scheme_from-eq :
    (s rest : Str) → all is_scheme_char s ≡ true → scheme_from (s ++ b':' ∷ rest) ≡ scheme s rest
unfolding scheme_from is_letter is_scheme_tail
scheme_from-eq [] rest h = refl
scheme_from-eq (c ∷ s) rest h = ground (arith, scheme_from-eq s rest)

get_scheme-eq : (s rest : Str) → IsScheme s → get_scheme (s ++ b':' ∷ rest) ≡ scheme s rest
unfolding get_scheme
get_scheme-eq [] rest h = absurd h
get_scheme-eq (c ∷ s) rest h = ground (arith, h.0, scheme_from-eq s rest h.1)

scheme-safe : (c : ℕ) → is_scheme_char c ≡ true → is_safe c ≡ true
unfolding is_letter is_scheme_tail
scheme-safe c h = ground arith

pub all-append :
    (p : ℕ → Bool) (s t : Str) → all p s ≡ true → all p t ≡ true → all p (s ++ t) ≡ true
all-append p [] t h k = k
all-append p (c ∷ s) t h k = ground (arith, all-append p s t)

pub all-cons : (p : ℕ → Bool) (c : ℕ) (s : Str) → p c ≡ true → all p s ≡ true → all p (c ∷ s) ≡ true
all-cons p c s h k = rw (h, k) refl

pub all-escaped :
    (p : ℕ → Bool) (high low : ℕ) (s : Str)
    → p b'%' ≡ true
    → p high ≡ true
    → p low ≡ true
    → all p s ≡ true
    → all p (b'%' ∷ high ∷ low ∷ s) ≡ true
all-escaped p high low s e h k rest =
    all-cons p b'%' (high ∷ low ∷ s) e (all-cons p high (low ∷ s) h (all-cons p low s k rest))

letter-scheme : (c : ℕ) → is_letter c ≡ true → is_scheme_char c ≡ true
letter-scheme c h = ground arith

uri-safe :
    (s path : Str)
    → IsScheme s
    → all is_safe path ≡ true
    → all is_safe (s ++ b':' ∷ b'/' ∷ b'/' ∷ path) ≡ true
uri-safe [] path h k = absurd h
uri-safe (c ∷ s) path h k =
    all-append is_safe (c ∷ s) (b':' ∷ b'/' ∷ b'/' ∷ path)
      (all_mono is_scheme_char is_safe (c ∷ s) scheme-safe
        (let first = letter-scheme c h.0 in ground (arith, h.1)))
      (ground arith)

parse_rooted-safe :
    (host_ok : Str → Bool) (c : ℕ) (s path : Str)
    → host_ok [] ≡ true
    → all is_safe (b'/' ∷ path) ≡ true
    → parse_rooted host_ok (c ∷ s) (b'/' ∷ b'/' ∷ b'/' ∷ path) ≡ some (c ∷ s, b'/' ∷ path)
unfolding parse_rooted cut is_empty
parse_rooted-safe host_ok c s path ok_ h = let e = unescape-safe (b'/' ∷ path) h in ground arith

parse_rest-safe :
    (host_ok : Str → Bool) (c : ℕ) (s path : Str)
    → host_ok [] ≡ true
    → all is_safe (b'/' ∷ path) ≡ true
    → parse_rest host_ok (c ∷ s) (b'/' ∷ b'/' ∷ b'/' ∷ path) ≡ some (c ∷ s, b'/' ∷ path)
unfolding parse_rest has_prefix cut_prefix
parse_rest-safe host_ok c s path fine h =
    let whole = before-safe b'?' (b'/' ∷ b'/' ∷ b'/' ∷ path) (
      all_mono is_safe (λ x. not (x == b'?')) (b'/' ∷ b'/' ∷ b'/' ∷ path) (λ x k. ground arith)
        (ground arith)) in
    rw whole (parse_rooted-safe host_ok c s path fine h)

-- url.Parse of an URI with an empty authority gives back its scheme and its path.
pub url_parse-safe :
    (host_ok : Str → Bool) (s path : Str)
    → host_ok [] ≡ true
    → IsScheme s
    → all is_safe (b'/' ∷ path) ≡ true
    → url_parse host_ok (s ++ b':' ∷ b'/' ∷ b'/' ∷ b'/' ∷ path) ≡ some (s, b'/' ∷ path)
unfolding url_parse unescape parse_rest
url_parse-safe host_ok [] path fine h k = absurd h
url_parse-safe host_ok (c ∷ s) path fine h k =
    let uri : Str = c ∷ s ++ b':' ∷ b'/' ∷ b'/' ∷ b'/' ∷ path in
    let safe = uri-safe (c ∷ s) (b'/' ∷ path) h k in
    let hash = all_mono is_safe (λ x. not (x == b'#')) uri (λ x m. ground arith) safe in
    let e₁ = before-safe b'#' uri hash in
    let e₂ = cut-none b'#' uri hash in
    let e₃ = safe-control uri safe in
    let e₄ = get_scheme-eq (c ∷ s) (b'/' ∷ b'/' ∷ b'/' ∷ path) h in
    let e₅ = parse_rest-safe host_ok c s path fine k in rw (e₁, e₂, e₃, e₄, h.2) e₅

pub cut_suffix-append : (s p : Str) → cut_suffix (s ++ p) p ≡ some s
unfolding cut_suffix
cut_suffix-append [] [] = ground arith
cut_suffix-append [] (c ∷ p) = ground arith
cut_suffix-append (a ∷ s) p = elim (dec_str (a ∷ s ++ p) p) [
  | yes e ↦ absurd (let k = ap length e in omega (arith, k, length-append s p))
  | no ne ↦ let rest = cut_suffix-append s p in ground arith
]

pub trim_suffix-append : (s p : Str) → trim_suffix (s ++ p) p ≡ s
unfolding trim_suffix
trim_suffix-append s p = let e = cut_suffix-append s p in ground arith
