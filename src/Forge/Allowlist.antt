-- ===== src/Forge/Allowlist.antt =====
-- The matcher that NewRepoAllowlist compiles allows what the entries say.
pub mod Entries
use git_lfs_server.Base.{
  ◌≡◌, refl, ap, subst, ◌≢◌, sym, ◌∙◌, Bool, true, false, ◌||◌, Option, none, some, List, [], ◌∷◌,
  ◌++◌, is, all, if◌then◌else◌, arith, Option-cases, Bool-cases, inl, inr,
}
use git_lfs_server.Base.Text.{Str, dec_str, str, is_empty, cut_suffix}
use git_lfs_server.Error.{Result, ok, err}
use git_lfs_server.Forge.{
  RepoAllowlist, parse_allowlist_entry, normalized, add_entry, add_entries, and_then, nil_if_empty,
  no_entries, new_repo_allowlist, any, below, allow,
}

-- What one entry allows: the paths below its prefix, or itself.
abbrev pub matches : Str → Str → Bool
matches entry repo = elim (cut_suffix entry (str "/**")) [
  | some p ↦ below repo (p ++ str "/")
  | none ↦ is (dec_str entry repo)
]

-- What a list of entries allows, the empty ones left out.
unfoldable pub permits : List Str → Str → Bool
permits [] repo = false
permits (raw ∷ rest) repo =
    if is_empty (normalized raw)
    then permits rest repo
    else matches (normalized raw) repo || permits rest repo

pub and_then-ok :
    {A B : Type 0} (r : Result A) (f : A → Result B) (b : B)
    → and_then r f ≡ ok b
    → (a : A) × (r ≡ ok a) × (f a ≡ ok b)
and_then-ok (ok a) f b h = (a, refl, h)
and_then-ok (err e) f b h = absurd (cc)

or_swap : (a b c : Bool) → (a || (b || c)) ≡ ((b || a) || c)
or_swap true true c = refl
or_swap true false c = refl
or_swap false true c = refl
or_swap false false c = refl

pub ok-injective : {A : Type 0} {a b : A} → ok a ≡ ok b → a ≡ b
ok-injective h = cc (h)

nil_if_empty-some : (a b : RepoAllowlist) → nil_if_empty a ≡ some b → a ≡ b
nil_if_empty-some a b h = ground arith

nil_if_empty-none : (a : RepoAllowlist) → nil_if_empty a ≡ none → (a.exact ≡ []) × (a.prefixes ≡ [])
nil_if_empty-none a h = ground arith

allow-no_entries :
    (entries : List Str) (repo : Str)
    → (permits entries repo || allow (some no_entries) repo) ≡ permits entries repo
unfolding allow
allow-no_entries entries repo = ground arith

abbrev IsBare : RepoAllowlist → Type 0
IsBare a = (a.exact ≡ []) × (a.prefixes ≡ [])

append-one : (xs : List Str) (x : Str) → xs ++ x ∷ [] ≢ []
append-one [] x h = cc
append-one (y ∷ ys) x h = cc

-- The loop takes no entry out again.
add_entry-IsBare :
    (entry : Str) (r : Result (Option Str)) (a a' : RepoAllowlist)
    → add_entry entry r a ≡ ok a'
    → ¬ IsBare a'
add_entry-IsBare entry (err e) a a' h k = absurd (cc)
add_entry-IsBare entry (ok none) a a' h k = absurd (cc (ap (λ x. x.exact) (ok-injective h), k.0))
add_entry-IsBare entry (ok (some p)) a a' h k =
    append-one a.prefixes (p ++ str "/") (ap (λ x. x.prefixes) (ok-injective h) ∙ k.1)

add_entries-IsBare :
    (entries : List Str) (a a' : RepoAllowlist)
    → add_entries entries a ≡ ok a'
    → IsBare a'
    → IsBare a × (all (λ raw. is_empty (normalized raw)) entries ≡ true)
unfolding add_entries
add_entries-IsBare [] a a' h k = (subst IsBare (sym (ok-injective h)) k, refl)
add_entries-IsBare (raw ∷ rest) a a' h k = elim (Bool-cases (is_empty (normalized raw))) [
  | inl e ↦ rw e (add_entries-IsBare rest a a' (rw e at h) k)
  | inr e ↦
      let (mid, one, more) =
        and_then-ok (add_entry (normalized raw) (parse_allowlist_entry (normalized raw)) a)
          (add_entries rest) a' (rw e at h) in
      absurd (
        add_entry-IsBare (normalized raw) (parse_allowlist_entry (normalized raw)) a mid one
          (add_entries-IsBare rest mid a' more k).0)
]

any-append : (p : Str → Bool) (xs ys : List Str) → any p (xs ++ ys) ≡ (any p xs || any p ys)
any-append p [] ys = refl
any-append p (x ∷ xs) ys = ground (arith, any-append p xs ys)

parse-some :
    (entry p : Str)
    → parse_allowlist_entry entry ≡ ok (some p)
    → cut_suffix entry (str "/**") ≡ some p
unfolding parse_allowlist_entry
parse-some entry p h = elim (Option-cases (cut_suffix entry (str "/**"))) [
  | inl e ↦ ground arith
  | inr (q, e) ↦ ground arith
]

parse-none :
    (entry : Str) → parse_allowlist_entry entry ≡ ok none → cut_suffix entry (str "/**") ≡ none
unfolding parse_allowlist_entry
parse-none entry h = elim (Option-cases (cut_suffix entry (str "/**"))) [
  | inl e ↦ ground arith
  | inr (q, e) ↦ ground arith
]

module _ (repo : Str) where
  prefix_added :
      (a : RepoAllowlist) (p : Str)
      → allow (some (record a { prefixes = a.prefixes ++ p ∷ [] })) repo
        ≡ (below repo p || allow (some a) repo)
  unfolding allow
  prefix_added a p = let k = any-append (below repo) a.prefixes (p ∷ []) in ground arith

  add_entry-lem :
      (entry : Str) (a a' : RepoAllowlist)
      → add_entry entry (parse_allowlist_entry entry) a ≡ ok a'
      → allow (some a') repo ≡ (matches entry repo || allow (some a) repo)
  unfolding allow
  add_entry-lem entry a a' h = go (parse_allowlist_entry entry) refl h
    where
      go :
          (r : Result (Option Str))
          → parse_allowlist_entry entry ≡ r
          → add_entry entry r a ≡ ok a'
          → allow (some a') repo ≡ (matches entry repo || allow (some a) repo)
      go (err x) e k = absurd (cc)
      go (ok none) e k = let s = parse-none entry e in ground arith
      go (ok (some p)) e k =
          let s = parse-some entry p e in let added = prefix_added a (p ++ str "/") in ground arith

  add_entries-lem :
      (entries : List Str) (a a' : RepoAllowlist)
      → add_entries entries a ≡ ok a'
      → allow (some a') repo ≡ (permits entries repo || allow (some a) repo)
  unfolding add_entries permits
  add_entries-lem [] a a' h = ground arith
  add_entries-lem (raw ∷ rest) a a' h = elim (Bool-cases (is_empty (normalized raw))) [
    | inl e ↦ rw e (add_entries-lem rest a a' (rw e at h))
    | inr e ↦
        let (mid, k, more) =
          and_then-ok (add_entry (normalized raw) (parse_allowlist_entry (normalized raw)) a)
            (add_entries rest) a' (rw e at h) in
        let one = add_entry-lem (normalized raw) a mid k in
        let others = add_entries-lem rest mid a' more in
        rw (e, others, one)
          (or_swap (permits rest repo) (matches (normalized raw) repo) (allow (some a) repo))
  ]

-- A matcher that NewRepoAllowlist compiles allows exactly the repositories that one of the entries
-- that are not empty allows: its own path, or, of an entry that ends in "/**", a longer path.
pub new_repo_allowlist-permits :
    (entries : List Str) (a : RepoAllowlist) (repo : Str)
    → new_repo_allowlist entries ≡ ok (some a)
    → allow (some a) repo ≡ permits entries repo
unfolding new_repo_allowlist
new_repo_allowlist-permits entries a repo h =
    let (a', k, same) =
      and_then-ok (add_entries entries no_entries) (λ x. ok (nil_if_empty x)) (some a) h in
    let it : a' ≡ a = nil_if_empty-some a' a (ok-injective same) in
    let e = add_entries-lem repo entries no_entries a' k in
    rw (← it, e) (allow-no_entries entries repo)

-- The nil matcher, which allows every repository, comes only of entries that are all empty once
-- trimmed.
pub new_repo_allowlist-unrestricted :
    (entries : List Str)
    → new_repo_allowlist entries ≡ ok none
    → all (λ raw. is_empty (normalized raw)) entries ≡ true
unfolding new_repo_allowlist
new_repo_allowlist-unrestricted entries h =
    let (a, k, same) =
      and_then-ok (add_entries entries no_entries) (λ x. ok (nil_if_empty x)) none h in
    (add_entries-IsBare entries no_entries a k (nil_if_empty-none a (ok-injective same))).1
