-- ===== src/Storage/Url.antt =====
-- net/url.Parse, as far as it gives the scheme and the path of an URI with an authority. Whether
-- the text between "//" and the next "/" is a host is a parameter.
pub mod Safe
pub mod Escape
use git_lfs_server.Base.{
  ℕ, ◌+◌, ◌-◌, ◌*◌, Bool, false, ◌&&◌, ◌||◌, not, is_some, Option, none, some, [], ◌∷◌, ltb, leb,
  ◌==◌, if◌then◌else◌,
}
use git_lfs_server.Base.Text.{Str, cut, has_prefix, to_lower, is_empty}
use git_lfs_server.Iox.Hex.{hex_value}

-- A digit of upperhex.
unfoldable pub upper_hex : ℕ → ℕ
upper_hex n = if ltb n 10 then b'0' + n else b'A' + (n - 10)

unfoldable pub is_letter : ℕ → Bool
is_letter c = (leb b'a' c && leb c b'z') || (leb b'A' c && leb c b'Z')

unfoldable pub is_scheme_tail : ℕ → Bool
is_scheme_tail c = (leb b'0' c && leb c b'9') || c == b'+' || c == b'-' || c == b'.'

pub data Scheme : Type 0 where
  missing : Scheme
  no_scheme : Scheme
  scheme : Str → Str → Scheme

abbrev pub longer : ℕ → Scheme → Scheme
longer c missing = missing
longer c no_scheme = no_scheme
longer c (scheme s rest) = scheme (c ∷ s) rest

-- getScheme, past the first byte
unfoldable pub scheme_from : Str → Scheme
scheme_from [] = no_scheme
scheme_from (c ∷ s) =
    let more = longer c (scheme_from s) in
    if is_letter c || is_scheme_tail c then more else if c == b':' then scheme [] s else no_scheme

-- getScheme
unfoldable pub get_scheme : Str → Scheme
get_scheme [] = no_scheme
get_scheme (c ∷ s) =
    if is_letter c then longer c (scheme_from s) else if c == b':' then missing else no_scheme

abbrev pub escaped : Option ℕ → Option ℕ → Option Str → Option Str
escaped (some h) (some l) (some s) = some ((h * 16 + l) ∷ s)
escaped _ _ _ = none

abbrev pub plain : ℕ → Option Str → Option Str
plain c none = none
plain c (some s) = some (c ∷ s)

-- unescape of a path
unfoldable pub unescape : Str → Option Str
unescape [] = some []
unescape (c ∷ []) = if c == b'%' then none else some (c ∷ [])
unescape (c ∷ d ∷ []) = if c == b'%' then none else plain c (unescape (d ∷ []))
unescape (c ∷ d ∷ e ∷ s) =
    let after = escaped (hex_value d) (hex_value e) (unescape s) in
    let next = plain c (unescape (d ∷ e ∷ s)) in if c == b'%' then after else next

-- The text before the first separator, all of it if there is none.
unfoldable pub before : ℕ → Str → Str
before c s = elim (cut c s) [ none ↦ s | some (l, r) ↦ l ]

abbrev pub after_authority : Str → Str × Str
after_authority s = elim (cut b'/' s) [ none ↦ (s, []) | some (l, r) ↦ (l, b'/' ∷ r) ]

abbrev pub has_control : Str → Bool
has_control [] = false
has_control (c ∷ s) = ltb c 32 || c == 127 || has_control s

abbrev pub with_scheme : Str → Option Str → Option (Str × Str)
with_scheme s none = none
with_scheme s (some p) = some (s, p)

module _ (host_ok : Str → Bool) where
  -- A rest that begins with "/": the authority, if there is one, and the path.
  unfoldable pub parse_rooted : Str → Str → Option (Str × Str)
  parse_rooted s (c ∷ d ∷ rest) =
      if d == b'/' && (not (is_empty s) || not (has_prefix rest (b'/' ∷ [])))
      then (let (host, path) = after_authority rest in
          if host_ok host then with_scheme s (unescape path) else none)
      else with_scheme s (unescape (c ∷ d ∷ rest))
  parse_rooted s rest = with_scheme s (unescape rest)

  -- parse, once the scheme is off: a rest that is not rooted is opaque behind a scheme, and must
  -- have no colon in its first segment without one.
  unfoldable pub parse_rest : Str → Str → Option (Str × Str)
  parse_rest s rest =
      let path = before b'?' rest in
      if has_prefix path (b'/' ∷ [])
      then parse_rooted s path
      else if not (is_empty s)
      then some (s, [])
      else if is_some (cut b':' (before b'/' path))
      then none
      else with_scheme s (unescape path)

  abbrev pub parsed : Scheme → Str → Option (Str × Str)
  parsed missing u = none
  parsed no_scheme u = parse_rest [] u
  parsed (scheme s rest) u = parse_rest (to_lower s) rest

  -- url.Parse: the scheme and the path, `none` for an error
  unfoldable pub url_parse : Str → Option (Str × Str)
  url_parse raw =
      let u = before b'#' raw in
      let fragment : Str = elim (cut b'#' raw) [ none ↦ [] | some (l, r) ↦ r ] in
      if has_control u || not (is_some (unescape fragment)) then none else parsed (get_scheme u) u
