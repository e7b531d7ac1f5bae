-- ===== src/Storage/FilePath.antt =====
-- path/filepath on Unix: Clean, Abs and Join of rooted paths.
pub mod Clean
pub mod Under
use git_lfs_server.Base.{ℕ, ◌||◌, List, [], ◌∷◌, ◌++◌, ◌==◌, is, reverse, if◌then◌else◌}
use git_lfs_server.Base.Text.{Str, dec_str, has_prefix}

abbrev pub slash : ℕ
slash = b'/'

abbrev pub grow : ℕ → List Str → List Str
grow c [] = (c ∷ []) ∷ []
grow c (p ∷ ps) = (c ∷ p) ∷ ps

-- strings.Split at "/"
unfoldable pub split_slash : Str → List Str
split_slash [] = [] ∷ []
split_slash (c ∷ s) = let rest = split_slash s in if c == slash then [] ∷ rest else grow c rest

abbrev pub drop_last : List Str → List Str
drop_last [] = []
drop_last (p ∷ ps) = ps

abbrev pub dot : Str
dot = b'.' ∷ []

abbrev pub dot_dot : Str
dot_dot = b'.' ∷ b'.' ∷ []

-- One element of a rooted path in Clean; the elements kept stand last first.
unfoldable pub resolve : List Str → Str → List Str
resolve stack part =
    if is (dec_str part []) || is (dec_str part dot)
    then stack
    else if is (dec_str part dot_dot)
    then drop_last stack
    else part ∷ stack

unfoldable pub resolve_all : List Str → List Str → List Str
resolve_all stack [] = reverse stack
resolve_all stack (p ∷ ps) = resolve_all (resolve stack p) ps

-- The rooted path with these elements.
unfoldable pub render : List Str → Str
render [] = slash ∷ []
render (p ∷ []) = slash ∷ p
render (p ∷ q ∷ ps) = slash ∷ (p ++ render (q ∷ ps))

-- filepath.Clean of a rooted path
unfoldable pub clean : Str → Str
clean path = render (resolve_all [] (split_slash path))

-- filepath.Abs, in the working directory `cwd`
unfoldable pub abs : Str → Str → Str
abs cwd path = if has_prefix path (slash ∷ []) then clean path else clean (cwd ++ slash ∷ path)
