-- ===== src/Auth/Keys.antt =====
-- cmd/lfsd/auth.go: what the keys of the cache of permissions tell apart.
use git_lfs_server.Base.{
  ℕ, ◌≡◌, ◌≢◌, refl, ◌⊎◌, inl, inr, true, not, all, List, [], ◌∷◌, ◌++◌, ◌==◌, arith,
}
use git_lfs_server.Base.Text.{Str, dec_str}
use git_lfs_server.Iox.Hex.{hex_encode}
use git_lfs_server.Auth.{auth_cache_key}

-- A text without the separator.
abbrev pub HasNoColon : Str → Type 0
HasNoColon s = all (λ c. not (c == b':')) s ≡ true

part-injective :
    (a b s t : Str)
    → HasNoColon a
    → HasNoColon b
    → a ++ b':' ∷ s ≡ b ++ b':' ∷ t
    → (a ≡ b) × (s ≡ t)
part-injective [] [] s t h k e = (refl, cc (e))
part-injective [] (y ∷ b) s t h k e = absurd (ground arith)
part-injective (x ∷ a) [] s t h k e = absurd (ground arith)
part-injective (x ∷ a) (y ∷ b) s t h k e =
    let (same, rest) = part-injective a b s t (ground arith) (ground arith) (cc (e)) in
    (cc (e, same), rest)

module _ (sha256 : List ℕ → List ℕ) where
  -- Two texts that the digest does not tell apart.
  abbrev pub Collision : Type 0
  Collision = (s : Str) × (t : Str) × ((s ≢ t) × (hex_encode (sha256 s) ≡ hex_encode (sha256 t)))

  -- Two keys of the cache whose hosts, repository paths and user names have no ":" are equal only if
  -- host, repository path, user name and token are, or if SHA-256 has a collision.
  pub auth_cache_key-apart :
      (host host' repo repo' username username' token token' : Str)
      → HasNoColon host
      → HasNoColon host'
      → HasNoColon repo
      → HasNoColon repo'
      → HasNoColon username
      → HasNoColon username'
      → auth_cache_key sha256 host repo username token
        ≡ auth_cache_key sha256 host' repo' username' token'
      → ((host ≡ host') × (repo ≡ repo') × (username ≡ username') × (token ≡ token')) ⊎ Collision
  unfolding auth_cache_key
  auth_cache_key-apart host host' repo repo' username username' token token' a a' b b' c c' e =
      let text = host ++ b':' ∷ (repo ++ b':' ∷ (username ++ b':' ∷ token)) in
      let text' = host' ++ b':' ∷ (repo' ++ b':' ∷ (username' ++ b':' ∷ token')) in
      elim (dec_str text text') [
        | yes same ↦
            let (hosts, behind) = part-injective host host' _ _ a a' same in
            let (repos, behind') = part-injective repo repo' _ _ b b' behind in
            let (names, tokens) = part-injective username username' _ _ c c' behind' in
            inl (hosts, repos, names, tokens)
        | no differ ↦ inr (text, text', (differ, e))
      ]
