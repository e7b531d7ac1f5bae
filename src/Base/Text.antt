-- ===== src/Base/Text.antt =====
-- Go strings as lists of bytes, with the functions of the package strings that the server calls.
-- Letters are those of ASCII: `to_lower` and `trim_space` are Go's on ASCII text.
use Prim.Native.Nat.{ℕ, ◌+◌}
use Prim.Native.Char.{code}
use Prim.Native.String.{String}
use mathlib.Core.Path.{◌≡◌, refl}
use mathlib.Core.Bool.{Bool, true, false, ◌&&◌, ◌||◌}
use mathlib.Core.Option.{Option, none, some}
use mathlib.Core.List.{List, [], ◌∷◌, map, reverse}
use native.Mathlib.Omega.{arith}
use native.Mathlib.Decide.{ℕ_discrete}
use git_lfs_server.Base.Tests.{leb, ◌==◌, if◌then◌else◌, is, is_some}

abbrev pub Str : Type 0
Str = List ℕ

unfoldable pub dec_str : Discrete Str
dec_str = hlevel ℕ_discrete

-- The code points of a literal: its bytes, if it is ASCII.
unfoldable pub str : String → Str
str String.[] = []
str (String.◌∷◌ c s) = code c ∷ str s

-- strings.CutPrefix
unfoldable pub cut_prefix : Str → Str → Option Str
cut_prefix s [] = some s
cut_prefix [] (c ∷ p) = none
cut_prefix (a ∷ s) (c ∷ p) = if a == c then cut_prefix s p else none

-- strings.HasPrefix
unfoldable pub has_prefix : Str → Str → Bool
unfolding cut_prefix
has_prefix s p = is_some (cut_prefix s p)

-- strings.CutSuffix
unfoldable pub cut_suffix : Str → Str → Option Str
cut_suffix [] p = if is (dec_str [] p) then some [] else none
cut_suffix (a ∷ s) p =
    let rest = cut_suffix s p in
    if is (dec_str (a ∷ s) p) then some [] else elim rest [ none ↦ none | some r ↦ some (a ∷ r) ]

-- strings.HasSuffix
unfoldable pub has_suffix : Str → Str → Bool
unfolding cut_suffix
has_suffix s p = is_some (cut_suffix s p)

-- strings.TrimSuffix
unfoldable pub trim_suffix : Str → Str → Str
unfolding cut_suffix
trim_suffix s p = elim (cut_suffix s p) [ none ↦ s | some r ↦ r ]

-- strings.Cut at a separator of one byte: the parts before and after its first occurrence
unfoldable pub cut : ℕ → Str → Option (Str × Str)
cut c [] = none
cut c (a ∷ s) =
    let rest = cut c s in
    if a == c then some ([], s) else elim rest [ none ↦ none | some (l, r) ↦ some (a ∷ l, r) ]

-- strings.Contains
unfoldable pub contains : Str → Str → Bool
unfolding has_prefix
contains [] p = has_prefix [] p
contains (a ∷ s) p = has_prefix (a ∷ s) p || contains s p

unfoldable pub lower : ℕ → ℕ
lower c = if leb b'A' c && leb c b'Z' then c + 32 else c

-- strings.ToLower
unfoldable pub to_lower : Str → Str
unfolding lower
to_lower = map lower

-- unicode.IsSpace, on ASCII
unfoldable pub is_space : ℕ → Bool
is_space c = c == 32 || (leb 9 c && leb c 13)

unfoldable pub trim_left : Str → Str
unfolding is_space
trim_left [] = []
trim_left (c ∷ s) = let rest = trim_left s in if is_space c then rest else c ∷ s

-- strings.TrimSpace
unfoldable pub trim_space : Str → Str
unfolding trim_left
trim_space s = reverse (trim_left (reverse (trim_left s)))

unfoldable pub is_empty : Str → Bool
is_empty [] = true
is_empty (c ∷ s) = false

-- lower is idempotent, so lower-cased text stays as it is.
pub lower_idem : (c : ℕ) → lower (lower c) ≡ lower c
unfolding lower
lower_idem c = ground arith

pub to_lower_idem : (s : Str) → to_lower (to_lower s) ≡ to_lower s
unfolding to_lower
to_lower_idem [] = refl
to_lower_idem (c ∷ s) = cc (lower_idem c, to_lower_idem s)
