-- ===== src/Forge.antt =====
-- internal/forge/forge.go: who may use the server, and for which repositories. `N` is the state of
-- the network that the providers' HTTP clients talk to.
pub mod GitHub
pub mod GitLab
pub mod Allowlist
use git_lfs_server.Base.{
  ℕ, Bool, true, false, ◌&&◌, ◌||◌, not, Option, none, some, List, [], ◌∷◌, ◌++◌, ltb, is, length,
  if◌then◌else◌,
}
use git_lfs_server.Base.Int.{ℤ, negsuc}
use git_lfs_server.Base.Text.{
  Str, dec_str, str, to_lower, trim_space, has_prefix, cut_suffix, contains, is_empty,
}
use git_lfs_server.Error.{Error, Result, ok, err, other}
use git_lfs_server.Server.{Permission, write}

-- RepoAllowlist; the map `exact` is the list of its keys.
pub record RepoAllowlist : Type 0 where
  pub exact : List Str
  pub prefixes : List Str

-- parseAllowlistEntry: `some` is the prefix of an entry that ends in "/**"
unfoldable pub parse_allowlist_entry : Str → Result (Option Str)
parse_allowlist_entry entry =
    if is (dec_str entry (str "**"))
    then err (other "bare ** matches everything")
    else if has_prefix entry (str "/")
    then err (other "must not start with /")
    else if contains entry (str "//")
    then err (other "must not contain //")
    else elim (cut_suffix entry (str "/**")) [
      | some p ↦
          if contains p (str "*")
          then err (other "* is only allowed as the final segment")
          else ok (some p)
      | none ↦
          if contains entry (str "*")
          then err (other "* is only allowed as the final segment")
          else ok none
    ]

abbrev pub normalized : Str → Str
normalized raw = to_lower (trim_space raw)

-- One entry that is not empty, added to what the loop has.
abbrev pub add_entry : Str → Result (Option Str) → RepoAllowlist → Result RepoAllowlist
add_entry entry (err e) a = err e
add_entry entry (ok (some p)) a = ok (record a { prefixes = a.prefixes ++ (p ++ str "/") ∷ [] })
add_entry entry (ok none) a = ok (record a { exact = entry ∷ a.exact })

abbrev pub and_then : {A B : Type 0} → Result A → (A → Result B) → Result B
and_then (ok a) f = f a
and_then (err e) f = err e

-- The loop of NewRepoAllowlist.
unfoldable pub add_entries : List Str → RepoAllowlist → Result RepoAllowlist
add_entries [] a = ok a
add_entries (raw ∷ rest) a =
    if is_empty (normalized raw)
    then add_entries rest a
    else and_then (add_entry (normalized raw) (parse_allowlist_entry (normalized raw)) a)
        (add_entries rest)

abbrev pub nil_if_empty : RepoAllowlist → Option RepoAllowlist
nil_if_empty a = elim a.exact [
  | e ∷ es ↦ some a
  | [] ↦ elim a.prefixes [ p ∷ ps ↦ some a | [] ↦ none ]
]

abbrev pub no_entries : RepoAllowlist
no_entries = record { exact = []; prefixes = [] }

-- NewRepoAllowlist; `none` is the nil matcher
unfoldable pub new_repo_allowlist : List Str → Result (Option RepoAllowlist)
new_repo_allowlist entries = and_then (add_entries entries no_entries) (λ a. ok (nil_if_empty a))

abbrev pub any : (Str → Bool) → List Str → Bool
any p [] = false
any p (x ∷ xs) = if p x then true else any p xs

abbrev pub below : Str → Str → Bool
below repo p = ltb (length p) (length repo) && has_prefix repo p

-- Allow
unfoldable pub allow : Option RepoAllowlist → Str → Bool
allow none repo = true
allow (some a) repo =
    if any (λ e. is (dec_str e repo)) a.exact then true else any (below repo) a.prefixes

-- Provider. Authorize returns the permission and the time in nanoseconds until the token expires.
pub record Provider (N : Type 0) : Type 0 where
  pub kind : Str
  pub allows : Str → Bool
  pub authorize : Str → Str → Str → N → Result (Permission × ℤ) × N

-- SkipAuthProvider
unfoldable pub skip_auth_provider : {N : Type 0} → Option RepoAllowlist → Provider N
skip_auth_provider allowlist = record {
  kind = str "skip-auth";
  allows = allow allowlist;
  authorize = λ repo username token n. (ok (write, negsuc 0), n);
}
