-- ===== src/Forge/Allowlist/Entries.antt =====
-- internal/forge/forge.go: the matcher, against what the entries say of paths.
use mathlib.Core.List.{append_assoc}
use git_lfs_server.Base.{
  ℕ, ◌≡◌, ◌≢◌, ◌⊎◌, ◌↔◌, ◌<◌, inl, inr, sym, ap, subst, ◌∙◌, true, false, some, List, [], ◌∷◌, ◌++◌,
  length, length-append, arith, refl, Bool, ◌||◌, Bool-cases, Option-cases,
}
use git_lfs_server.Base.Text.{
  Str, str, dec_str, to_lower, trim_space, is_empty, cut_suffix, has_prefix,
}
use git_lfs_server.Error.{ok}
use git_lfs_server.Storage.FilePath.Under.{has_prefix-append, has_prefix-rest}
use git_lfs_server.Storage.Url.Safe.{cut_suffix-append}
use git_lfs_server.Forge.{RepoAllowlist, new_repo_allowlist, below, allow, normalized}
use git_lfs_server.Forge.Allowlist.{matches, permits, new_repo_allowlist-permits}

-- An entry names the repository, or it is a path with "/**" behind it, and the repository is that
-- path with a slash and at least one more byte behind it.
abbrev pub Names : Str → Str → Type 0
Names entry repo =
    (entry ≡ repo)
    ⊎ ((p : Str) × (c : ℕ) × (rest : Str) × (entry ≡ p ++ str "/**")
        × (repo ≡ p ++ b'/' ∷ c ∷ rest))

-- One of the entries, trimmed and in lower case, is not empty and names the repository.
abbrev pub IsPermitted : List Str → Str → Type 0
IsPermitted [] repo = ⊥
IsPermitted (raw ∷ rest) repo =
    ((to_lower (trim_space raw) ≢ []) × Names (to_lower (trim_space raw)) repo)
    ⊎ IsPermitted rest repo

cut_suffix-some : (s p r : Str) → cut_suffix s p ≡ some r → s ≡ r ++ p
unfolding cut_suffix
cut_suffix-some [] p r h = ground arith
cut_suffix-some (a ∷ s) p r h = elim (dec_str (a ∷ s) p) [
  | yes e ↦ let none_left : r ≡ [] = ground arith in rw none_left e
  | no ne ↦ elim (Option-cases (cut_suffix s p)) [
    | inl k ↦ absurd (ground arith)
    | inr (q, k) ↦
        let named : r ≡ a ∷ q = ground arith in
        let rest = cut_suffix-some s p q k in rw named (ap (λ x. a ∷ x) rest)
  ]
]

below-longer :
    (repo p : Str)
    → below repo (p ++ str "/") ≡ true
    → (c : ℕ) × (rest : Str) × (repo ≡ p ++ b'/' ∷ c ∷ rest)
unfolding str
below-longer repo p h =
    let (rest, e) = has_prefix-rest repo (p ++ b'/' ∷ []) (ground arith) in
    go rest (e ∙ append_assoc p (b'/' ∷ []) rest) (ground arith)
  where
    go :
        (rest : Str)
        → repo ≡ p ++ b'/' ∷ rest
        → length (p ++ b'/' ∷ []) < length repo
        → (c : ℕ) × (more : Str) × (repo ≡ p ++ b'/' ∷ c ∷ more)
    go [] e l = absurd (omega (arith, ap length e, l))
    go (c ∷ more) e l = (c, more, e)

longer-below : (p rest : Str) (c : ℕ) → below (p ++ b'/' ∷ c ∷ rest) (p ++ str "/") ≡ true
unfolding str
longer-below p rest c =
    let prefixed =
      subst (λ x. has_prefix x (p ++ b'/' ∷ []) ≡ true) (append_assoc p (b'/' ∷ []) (c ∷ rest))
        (has_prefix-append (p ++ b'/' ∷ []) (c ∷ rest)) in
    let long = length-append p (b'/' ∷ c ∷ rest) in
    let short = length-append p (b'/' ∷ []) in ground arith

itself : (p : Str) → below (p ++ str "/**") (p ++ str "/") ≡ true
unfolding str
itself p = longer-below p (b'*' ∷ []) b'*'

or_true : (x : Bool) → (x || true) ≡ true
or_true true = refl
or_true false = refl

normalized-cases :
    (raw : Str)
    → ((is_empty (normalized raw) ≡ true) × (to_lower (trim_space raw) ≡ []))
      ⊎ ((is_empty (normalized raw) ≡ false) × (to_lower (trim_space raw) ≢ []))
unfolding is_empty
normalized-cases raw = go (to_lower (trim_space raw))
  where
    go : (s : Str) → ((is_empty s ≡ true) × (s ≡ [])) ⊎ ((is_empty s ≡ false) × (s ≢ []))
    go [] = inl (refl, refl)
    go (c ∷ s) = inr (refl, λ h. cc (h))

-- The entry of the code, against what it names.
matches-Names : (entry repo : Str) → (matches entry repo ≡ true) ↔ Names entry repo
matches-Names entry repo = elim (Option-cases (cut_suffix entry (str "/**"))) [
  | inl e ↦ (
    λ h. inl (ground arith),
    λ n. elim n [
      | inl same ↦ ground arith
      | inr (p, c, rest, k, m) ↦ absurd (cc (e, k, cut_suffix-append p (str "/**")))
    ],
  )
  | inr (p, e) ↦ (
    λ h.
        let (c, rest, k) = below-longer repo p (rw (e, matches) at h) in
        inr (p, c, rest, cut_suffix-some entry (str "/**") p e, k),
    λ n. elim n [
      | inl same ↦
          let whole : repo ≡ p ++ str "/**" = sym same ∙ cut_suffix-some entry (str "/**") p e in
          rw (matches, e, whole) (itself p)
      | inr (q, c, rest, k, m) ↦
          let named : p ≡ q = cc (e, k, cut_suffix-append q (str "/**")) in
          rw (matches, e, named, m) (longer-below q rest c)
    ],
  )
]

permits-IsPermitted :
    (entries : List Str) (repo : Str) → (permits entries repo ≡ true) ↔ IsPermitted entries repo
unfolding permits
permits-IsPermitted [] repo = (λ h. absurd (cc), λ n. absurd n)
permits-IsPermitted (raw ∷ rest) repo =
    let (to, from) = permits-IsPermitted rest repo in
    let (named, back) = matches-Names (normalized raw) repo in
    elim (normalized-cases raw) [
      | inl (k, e) ↦ (
        λ h. inr (to (rw k at h)),
        λ n. elim n [ inl (full, m) ↦ absurd (full e) | inr m ↦ rw k (from m) ],
      )
      | inr (k, full) ↦ (
        λ h. elim (Bool-cases (matches (normalized raw) repo)) [
          | inl m ↦ inl (full, named m)
          | inr m ↦ inr (to (rw (k, m) at h))
        ],
        λ n. elim n [
          | inl (nonempty, m) ↦ let it = back m in ground arith
          | inr m ↦ rw (k, from m) (or_true (matches (normalized raw) repo))
        ],
      )
    ]

-- Where NewRepoAllowlist compiles entries to a matcher that is not nil, Allow answers true for
-- exactly the repositories that one of the entries names: an entry, trimmed and in lower case, that
-- is not empty and is the repository itself, or is a path with "/**" behind it where the repository
-- is that path with a slash and at least one more byte behind it.
pub new_repo_allowlist-IsPermitted :
    (entries : List Str) (a : RepoAllowlist) (repo : Str)
    → new_repo_allowlist entries ≡ ok (some a)
    → (allow (some a) repo ≡ true) ↔ IsPermitted entries repo
new_repo_allowlist-IsPermitted entries a repo h =
    let e = new_repo_allowlist-permits entries a repo h in
    let (to, from) = permits-IsPermitted entries repo in (λ k. to (sym e ∙ k), λ n. e ∙ from n)
