-- ===== src/Forge/GitHub.antt =====
-- internal/forge/github.go. The HTTP client and time.Parse are parameters.
pub mod Grants
use git_lfs_server.Base.{
  ℕ, ◌≡◌, ◌⊎◌, Bool, true, false, Option, none, some, List, [], ◌∷◌, ◌++◌, ◌==◌, ◌||◌, is,
  if◌then◌else◌, arith, Option-cases, inl, inr,
}
use git_lfs_server.Base.Int.{ℤ, pos, negsuc}
use git_lfs_server.Base.Text.{Str, dec_str, str, is_empty}
use git_lfs_server.Error.{Result, ok, err, token_invalid, other}
use git_lfs_server.Server.{Permission, read, write}
use git_lfs_server.Forge.{RepoAllowlist, Provider, allow}

-- githubRepoResponse
pub record GithubRepoResponse : Type 0 where
  pub pull : Bool
  pub push : Bool

-- A response: its status, its body, which may be no JSON, and the header of the token's expiration.
pub record GithubReply : Type 0 where
  pub status : ℕ
  pub decoded : Option GithubRepoResponse
  pub expiration : Str

-- githubAPIBase
unfoldable pub github_api_base : Str → Str
github_api_base host =
    if is (dec_str host (str "github.com"))
    then str "https://api.github.com"
    else str "https://" ++ (host ++ str "/api/v3")

abbrev pub github_expiration_layouts : List Str
github_expiration_layouts = str "2006-01-02 15:04:05 MST" ∷ str "2006-01-02 15:04:05 -0700" ∷ []

-- `until` is time.Parse by a layout and then time.Until, in nanoseconds.
module _ (until : Str → Str → Option ℤ) where
  -- The loop over the layouts.
  unfoldable pub parse_expiration : List Str → Str → Option ℤ
  parse_expiration [] header = none
  parse_expiration (layout ∷ layouts) header = elim (until layout header) [
    | some t ↦ some t
    | none ↦ parse_expiration layouts header
  ]

  abbrev pub expires : Option ℤ → ℤ
  expires none = negsuc 0
  expires (some t) = t

  -- githubTokenTTL
  unfoldable pub github_token_ttl : Str → ℤ
  github_token_ttl header =
      if is_empty header then pos 0 else expires (parse_expiration github_expiration_layouts header)

  abbrev pub granted : GithubReply → Option GithubRepoResponse → Result (Permission × ℤ)
  granted reply none = err (other "decode GitHub API response")
  granted reply (some body) =
      if body.push
      then ok (write, github_token_ttl reply.expiration)
      else if body.pull
      then ok (read, github_token_ttl reply.expiration)
      else err token_invalid

  abbrev pub judged : Option GithubReply → Result (Permission × ℤ)
  judged none = err (other "call GitHub API")
  judged (some reply) =
      if reply.status == 200
      then granted reply reply.decoded
      else if reply.status == 401 || reply.status == 404
      then err token_invalid
      else err (other "unexpected status from GitHub API")

  -- The client: GET of a URL with a bearer token; `none` is an error of the request or the call.
  module _ {N : Type 0} (get : Str → Str → N → Option GithubReply × N) where
    -- Authorize
    unfoldable pub github_authorize : Str → Str → Str → Str → N → Result (Permission × ℤ) × N
    github_authorize host repo username token n =
        let (reply, n') = get (github_api_base host ++ (str "/repos/" ++ repo)) token n in
        (judged reply, n')

    -- NewGitHubProvider
    unfoldable pub new_github_provider : Str → Option RepoAllowlist → Provider N
    new_github_provider host allowlist = record {
      kind = str "github";
      allows = allow allowlist;
      authorize = github_authorize host;
    }
