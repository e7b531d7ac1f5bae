-- ===== src/Auth.antt =====
-- cmd/lfsd/auth.go: the middleware before the handlers. `A` is the state of the network and of the
-- cache together.
pub mod Allowed
pub mod Keys
pub mod Ttl
use git_lfs_server.Base.{
  ℕ, ◌+◌, ◌-◌, ◌*◌, ◌<◌, ◌≤◌, ◌≡◌, refl, ◌⊎◌, inl, inr, Bool, true, false, ◌||◌, not, Option, none,
  some, List, [], ◌∷◌, ◌++◌, ltb, is, if◌then◌else◌, arith, Option-cases, Bool-cases, is_some,
}
use git_lfs_server.Base.Int.{ℤ, pos, negsuc}
use git_lfs_server.Base.Text.{Str, str, to_lower, is_empty}
use git_lfs_server.Error.{Error, Result, ok, err, token_invalid}
use git_lfs_server.Iox.Hex.{hex_encode}
use git_lfs_server.Forge.{Provider}
use git_lfs_server.Server.{
  Permission, Response, Params, text, message, host_from_context, write_lfs_error, internal_error,
  media_type_lfs,
}

-- A time.Duration counts nanoseconds.
abbrev pub minute : ℕ
minute = 60000000000

abbrev pub auth_cache_ttl_default : ℕ
auth_cache_ttl_default = 5 * minute

abbrev pub auth_cache_ttl_max : ℕ
auth_cache_ttl_max = 60 * minute

abbrev pub auth_cache_ttl_margin : ℕ
auth_cache_ttl_margin = 5 * minute

-- authCacheTTL; `ttl <= 0` is where the subtraction on ℕ stops.
unfoldable pub auth_cache_ttl : ℤ → ℤ
auth_cache_ttl (negsuc n) = negsuc 0
auth_cache_ttl (pos raw) =
    let ttl = if ltb 0 raw then raw - auth_cache_ttl_margin else auth_cache_ttl_default in
    if ltb 0 ttl
    then (if ltb auth_cache_ttl_max ttl then pos auth_cache_ttl_max else pos ttl)
    else negsuc 0

abbrev pub colon : ℕ
colon = b':'

-- authCacheKey; crypto/sha256 is a parameter
unfoldable pub auth_cache_key : (List ℕ → List ℕ) → Str → Str → Str → Str → Str
auth_cache_key sha256 host repo username token =
    hex_encode (sha256 (host ++ colon ∷ (repo ++ colon ∷ (username ++ colon ∷ token))))

-- What cache.Get gives: a permission, a value of another type, or an error.
pub data Cached : Type 0 where
  hit : Permission → Cached
  other_value miss : Cached

-- cache.Cache: Set has a time to live, and its error is only logged.
pub record Cache (A : Type 0) : Type 0 where
  pub get : Str → A → Cached × A
  pub set : Str → Permission → ℤ → A → A

abbrev pub Forges : Type 0 → Type 0
Forges A = Str → Option (Provider A)

-- What the middleware does: it passes a permission on to the handler, or it answers.
pub data Verdict : Type 0 where
  passed : Permission → Verdict
  answered : Response → Verdict

module _ {A : Type 0} (sha256 : List ℕ → List ℕ) (cache : Cache A) (forges : Forges A) where
  abbrev pub is_cacheable : ℤ → Bool
  is_cacheable (pos n) = true
  is_cacheable (negsuc n) = false

  abbrev pub remember : Str → Permission → ℤ → A → A
  remember key perm ttl a = if is_cacheable ttl then cache.set key perm ttl a else a

  abbrev pub provided : Str → Result (Permission × ℤ) → A → Verdict × A
  provided key (ok (perm, raw)) a = (passed perm, remember key perm (auth_cache_ttl raw) a)
  provided key (err token_invalid) a =
      (answered (write_lfs_error 403 (text (str "token is invalid or lacks repository access"))), a)
  provided key (err e) a = (answered internal_error, a)

  abbrev pub ask : Provider A → Str → Str → Str → Str → A → Verdict × A
  ask p key repo username token a =
      let (r, a') = p.authorize repo username token a in provided key r a'

  abbrev pub looked_up : Provider A → Str → Str → Str → Str → Cached → A → Verdict × A
  looked_up p key repo username token (hit perm) a = (passed perm, a)
  looked_up p key repo username token other_value a = ask p key repo username token a
  looked_up p key repo username token miss a = ask p key repo username token a

  abbrev pub cached_or_asked : Provider A → Str → Str → Str → Str → A → Verdict × A
  cached_or_asked p key repo username token a =
      let (v, a') = cache.get key a in looked_up p key repo username token v a'

  abbrev pub unauthorized : Response
  unauthorized = record {
    code = 401;
    headers =
        (str "WWW-Authenticate", str "Basic realm=\"git-lfs\"")
        ∷ (str "Content-Type", media_type_lfs)
        ∷ [];
    body = message (text (str "basic auth credentials are required"));
  }

  abbrev pub with_credentials : Provider A → Str → Str → Option (Str × Str) → A → Verdict × A
  with_credentials p host repo none a = (answered unauthorized, a)
  with_credentials p host repo (some (username, token)) a =
      if is_empty token
      then (answered unauthorized, a)
      else if is_empty repo
      then (answered (write_lfs_error 400 (text (str "repository path is missing"))), a)
      else if not (p.allows repo)
      then (answered (write_lfs_error 403 (text (str "repository is not in the allowlist"))), a)
      else cached_or_asked p (auth_cache_key sha256 host repo username token) repo username token a

  abbrev pub at_forge : Option (Provider A) → Params → Option (Str × Str) → A → Verdict × A
  at_forge none c basic_auth a =
      (answered (write_lfs_error 400 (text (str "unsupported forge host"))), a)
  at_forge (some p) c basic_auth a =
      with_credentials p (host_from_context c) (to_lower c.path) basic_auth a

  -- authorize; `basic_auth` is what BasicAuth of the request gives
  unfoldable pub authorize : Params → Option (Str × Str) → A → Verdict × A
  authorize c basic_auth a = at_forge (forges (host_from_context c)) c basic_auth a
