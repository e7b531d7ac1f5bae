-- ===== src/Auth/Allowed.antt =====
-- What a request must have to pass authorize.
use git_lfs_server.Base.{
  ℕ, ◌∷◌, ◌++◌, ◌≡◌, refl, ◌⊎◌, inl, inr, true, false, Option, none, some, List, Option-cases,
  arith,
}
use git_lfs_server.Base.Int.{ℤ}
use git_lfs_server.Base.Text.{Str, to_lower, is_empty}
use git_lfs_server.Iox.Hex.{hex_encode}
use git_lfs_server.Error.{Result, ok, err}
use git_lfs_server.Forge.{Provider}
use git_lfs_server.Server.{Permission, Params, host_from_context}
use git_lfs_server.Auth.{
  Cache, Cached, hit, other_value, miss, Forges, passed, auth_cache_key, provided, ask, looked_up,
  with_credentials, cached_or_asked, authorize,
}

module _ {A : Type 0} (sha256 : List ℕ → List ℕ) (cache : Cache A) (forges : Forges A) where
  -- What lets a request pass: a configured forge that allows the repository, credentials with a
  -- token, and a permission that the forge gives, or that the cache has under the digest of the
  -- host, the repository, the user name and the token, joined by ":".
  pub record IsAllowed (c : Params) (basic_auth : Option (Str × Str)) (a : A) (perm : Permission)
      : Type 0 where
    pub provider : Provider A
    pub username : Str
    pub token : Str
    pub configured : forges (host_from_context c) ≡ some provider
    pub presented : basic_auth ≡ some (username, token)
    pub full : is_empty token ≡ false
    pub named : is_empty (to_lower c.path) ≡ false
    pub listed : provider.allows (to_lower c.path) ≡ true
    pub granted :
        let joined =
          host_from_context c ++ b':' ∷ (to_lower c.path ++ b':' ∷ (username ++ b':' ∷ token)) in
        let (v, a') = cache.get (hex_encode (sha256 joined)) a in
        (v ≡ hit perm)
        ⊎ ((raw : ℤ) × ((provider.authorize (to_lower c.path) username token a').0
              ≡ ok (perm, raw)))

  provided-passed :
      (key : Str) (r : Result (Permission × ℤ)) (a a' : A) (perm : Permission)
      → provided sha256 cache forges key r a ≡ (passed perm, a')
      → (raw : ℤ) × (r ≡ ok (perm, raw))
  provided-passed key (ok (p, raw)) a a' perm h = (raw, ground arith)
  provided-passed key (err e) a a' perm h = absurd (ground arith)

  ask-passed :
      (p : Provider A) (key repo username token : Str) (a a' : A) (perm : Permission)
      → ask sha256 cache forges p key repo username token a ≡ (passed perm, a')
      → (raw : ℤ) × ((p.authorize repo username token a).0 ≡ ok (perm, raw))
  ask-passed p key repo username token a a' perm h =
      provided-passed key (p.authorize repo username token a).0
        (p.authorize repo username token a).1 a' perm h

  looked_up-passed :
      (p : Provider A) (key repo username token : Str) (v : Cached) (a a' : A) (perm : Permission)
      → looked_up sha256 cache forges p key repo username token v a ≡ (passed perm, a')
      → (v ≡ hit perm) ⊎ ((raw : ℤ) × ((p.authorize repo username token a).0 ≡ ok (perm, raw)))
  looked_up-passed p key repo username token (hit q) a a' perm h = inl (ground arith)
  looked_up-passed p key repo username token other_value a a' perm h =
      inr (ask-passed p key repo username token a a' perm h)
  looked_up-passed p key repo username token miss a a' perm h =
      inr (ask-passed p key repo username token a a' perm h)

  with_credentials-passed :
      (p : Provider A) (host repo : Str) (username token : Str) (a a' : A) (perm : Permission)
      → with_credentials sha256 cache forges p host repo (some (username, token)) a
        ≡ (passed perm, a')
      → (is_empty token ≡ false)
        × (is_empty repo ≡ false)
        × (p.allows repo ≡ true)
        × (cached_or_asked sha256 cache forges p
              (auth_cache_key sha256 host repo username token)
              repo
              username
              token
              a
            ≡ (passed perm, a'))
  with_credentials-passed p host repo username token a a' perm h = ground arith

  -- A request that authorize lets pass with a permission has a forge for its host in lower case,
  -- credentials with a token, and a repository path that is not empty and that the forge allows; the
  -- permission is the one that the forge gives for the repository path, the user name and the token,
  -- or one that the cache has under the SHA-256 of the host, the repository path, the user name and
  -- the token, joined by ":".
  pub authorize-IsAllowed :
      (c : Params) (basic_auth : Option (Str × Str)) (a a' : A) (perm : Permission)
      → authorize sha256 cache forges c basic_auth a ≡ (passed perm, a')
      → IsAllowed c basic_auth a perm
  unfolding authorize auth_cache_key
  authorize-IsAllowed c none a a' perm h = elim (Option-cases (forges (host_from_context c))) [
    | inl e ↦ absurd (cc (rw e at h))
    | inr (p, e) ↦ absurd (cc (rw e at h))
  ]
  authorize-IsAllowed c (some (username, token)) a a' perm h =
      elim (Option-cases (forges (host_from_context c))) [
        | inl e ↦ absurd (cc (rw e at h))
        | inr (p, e) ↦
            let (full, named, listed, rest) =
              with_credentials-passed p (host_from_context c) (to_lower c.path) username token a a'
                perm (rw e at h) in
            let key =
              auth_cache_key sha256 (host_from_context c) (to_lower c.path) username token in
            record {
              provider = p;
              username = username;
              token = token;
              configured = e;
              presented = refl;
              full = full;
              named = named;
              listed = listed;
              granted =
                  looked_up-passed p key (to_lower c.path) username token (cache.get key a).0
                    (cache.get key a).1 a' perm rest;
            }
      ]
