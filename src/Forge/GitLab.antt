-- ===== src/Forge/GitLab.antt =====
-- internal/forge/gitlab.go. The HTTP client is a parameter.
pub mod Path
pub mod Grants
use git_lfs_server.Base.{
  ℕ, ◌/◌, ◌%◌, ◌+◌, ◌-◌, ◌≡◌, ◌⊎◌, Bool, true, false, ◌&&◌, ◌||◌, Option, none, some, List, [], ◌∷◌,
  ◌++◌, ◌==◌, leb, ltb, map, if◌then◌else◌, arith, inl,
}
use git_lfs_server.Base.Int.{ℤ, pos}
use git_lfs_server.Base.Text.{Str, str, is_empty}
use git_lfs_server.Error.{Result, ok, err, token_invalid, other}
use git_lfs_server.Server.{Permission, read, write}
use git_lfs_server.Storage.Url.{upper_hex}
use git_lfs_server.Storage.FilePath.{slash, split_slash}
use git_lfs_server.Forge.{RepoAllowlist, Provider, allow}

-- What url.PathEscape leaves as it is.
unfoldable pub is_segment_byte : ℕ → Bool
is_segment_byte c =
    (leb b'a' c && leb c b'z')
    || (leb b'A' c && leb c b'Z')
    || (leb b'0' c && leb c b'9')
    || c == b'-'
    || c == b'_'
    || c == b'.'
    || c == b'~'
    || c == b'$'
    || c == b'&'
    || c == b'+'
    || c == b':'
    || c == b'='
    || c == b'@'

-- url.PathEscape
unfoldable pub path_escape : Str → Str
path_escape [] = []
path_escape (c ∷ s) =
    let rest = path_escape s in
    if is_segment_byte c then c ∷ rest else b'%' ∷ upper_hex (c / 16) ∷ upper_hex (c % 16) ∷ rest

-- strings.Join by "/"
unfoldable pub join_slash : List Str → Str
join_slash [] = []
join_slash (p ∷ []) = p
join_slash (p ∷ q ∷ ps) = p ++ slash ∷ join_slash (q ∷ ps)

-- gitlabSmartHTTPURL; the services have no byte that a query escapes
unfoldable pub gitlab_smart_http_url : Str → Str → Str → Str
gitlab_smart_http_url base repo service =
    base
    ++ slash
      ∷ (join_slash (map path_escape (split_slash repo))
          ++ (str ".git/info/refs?" ++ (str "service=" ++ service)))

abbrev pub service_status : Option ℕ → Result Bool
service_status none = err (other "call GitLab")
service_status (some code) =
    if code == 200
    then ok true
    else if code == 401 || code == 403 || code == 404
    then ok false
    else err (other "unexpected status from GitLab")

-- The client: GET of a URL by a user name and a token, and the status of the response; `none` is an
-- error of the request or the call.
module _ {N : Type 0} (get : Str → Str → Str → N → Option ℕ × N) (host : Str) where
  -- allowGitService
  unfoldable pub allow_git_service : Str → Str → Str → Str → N → Result Bool × N
  allow_git_service repo username token service n =
      let user = if is_empty username then str "oauth2" else username in
      let (code, n') =
        get (gitlab_smart_http_url (str "https://" ++ host) repo service) user token n in
      (service_status code, n')

  abbrev pub second : Result Bool × N → Result (Permission × ℤ) × N
  second (err e, n) = (err e, n)
  second (ok true, n) = (ok (read, pos 0), n)
  second (ok false, n) = (err token_invalid, n)

  abbrev pub first : Str → Str → Str → Result Bool × N → Result (Permission × ℤ) × N
  first repo username token (err e, n) = (err e, n)
  first repo username token (ok true, n) = (ok (write, pos 0), n)
  first repo username token (ok false, n) =
      second (allow_git_service repo username token (str "git-upload-pack") n)

  -- Authorize
  unfoldable pub gitlab_authorize : Str → Str → Str → N → Result (Permission × ℤ) × N
  gitlab_authorize repo username token n =
      first repo username token (allow_git_service repo username token (str "git-receive-pack") n)

  -- NewGitLabProvider
  unfoldable pub new_gitlab_provider : Option RepoAllowlist → Provider N
  new_gitlab_provider allowlist = record {
    kind = str "gitlab";
    allows = allow allowlist;
    authorize = gitlab_authorize;
  }
