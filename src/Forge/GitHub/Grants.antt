-- ===== src/Forge/GitHub/Grants.antt =====
-- internal/forge/github.go: what the GitHub provider grants, and for how long.
use mathlib.Core.List.{append_assoc}
use git_lfs_server.Base.{
  ◌≡◌, ◌≢◌, refl, ap, ◌⊎◌, true, false, Option, none, some, [], ◌∷◌, ◌++◌, is, arith, if◌then◌else◌,
  Option-cases, inl, inr,
}
use git_lfs_server.Base.Int.{ℤ, pos, negsuc}
use git_lfs_server.Base.Text.{Str, dec_str, str, is_empty}
use git_lfs_server.Error.{ok}
use git_lfs_server.Server.{Permission, read, write}
use git_lfs_server.Forge.GitHub.{
  GithubRepoResponse, GithubReply, github_api_base, parse_expiration, github_token_ttl,
  github_authorize,
}

-- The repository at the API of github.com, or at that of a server of one's own.
abbrev pub IsApiUrl : Str → Str → Str → Type 0
IsApiUrl host repo url =
    ((host ≡ str "github.com") × (url ≡ str "https://api.github.com/repos/" ++ repo))
    ⊎ ((host ≢ str "github.com")
        × (url ≡ str "https://" ++ (host ++ (str "/api/v3/repos/" ++ repo))))

github_api_base-IsApiUrl :
    (host repo : Str) → IsApiUrl host repo (github_api_base host ++ (str "/repos/" ++ repo))
unfolding github_api_base str
github_api_base-IsApiUrl host repo =
    elim (dec_str host (str "github.com"))
      as (λ d. IsApiUrl host repo (
        (if is d then str "https://api.github.com" else str "https://" ++ (host ++ str "/api/v3"))
        ++ (str "/repos/" ++ repo))) [
          | yes e ↦ inl (e, refl)
          | no ne ↦ inr (
            ne,
            ap (λ x. str "https://" ++ x)
                (append_assoc host (str "/api/v3") (str "/repos/" ++ repo)),
          )
        ]

module _ (until : Str → Str → Option ℤ) where
  -- What the header says of the token: no header, no expiration; the time by the first of the two
  -- layouts that reads it; and -1, which is over, where no layout does.
  abbrev pub Lasts : Str → ℤ → Type 0
  Lasts header ttl =
      ((header ≡ []) × (ttl ≡ pos 0))
      ⊎ ((header ≢ [])
          × ((until (str "2006-01-02 15:04:05 MST") header ≡ some ttl)
              ⊎ ((until (str "2006-01-02 15:04:05 MST") header ≡ none)
                  × ((until (str "2006-01-02 15:04:05 -0700") header ≡ some ttl)
                      ⊎ ((until (str "2006-01-02 15:04:05 -0700") header ≡ none)
                          × (ttl ≡ negsuc 0))))))

  github_token_ttl-Lasts : (header : Str) → Lasts header (github_token_ttl until header)
  unfolding github_token_ttl parse_expiration is_empty
  github_token_ttl-Lasts [] = inl (refl, refl)
  github_token_ttl-Lasts (c ∷ header) = inr (
    λ h. cc (h),
    elim (Option-cases (until (str "2006-01-02 15:04:05 MST") (c ∷ header))) [
      | inl e ↦ elim (Option-cases (until (str "2006-01-02 15:04:05 -0700") (c ∷ header))) [
        | inl k ↦ inr (e, inr (k, rw (e, k) refl))
        | inr (t, k) ↦ inr (e, inl (rw (e, k) refl))
      ]
      | inr (t, e) ↦ inl (rw e refl)
    ],
  )

  -- Authorize that grants a permission asked the API of the host for the repository, and had a
  -- response with status 200, which says push for write, and pull without push for read. The
  -- duration is 0 where the header of the expiration is empty, else the time by the first of the two
  -- layouts that reads the header, and -1 where neither does.
  pub github_authorize-Lasts :
      {N : Type 0} (get : Str → Str → N → Option GithubReply × N) (host repo username token : Str)
      (n n' : N) (perm : Permission) (ttl : ℤ)
      → github_authorize until get host repo username token n ≡ (ok (perm, ttl), n')
      → (url : Str) × (reply : GithubReply) × (body : GithubRepoResponse) × (IsApiUrl host repo url
          × ((get url token n).0 ≡ some reply)
          × (reply.status ≡ 200)
          × (reply.decoded ≡ some body)
          × Lasts reply.expiration ttl
          × (((perm ≡ write) × (body.push ≡ true))
              ⊎ ((perm ≡ read) × (body.push ≡ false) × (body.pull ≡ true))))
  unfolding github_authorize
  github_authorize-Lasts get host repo username token n n' perm ttl h =
      let url = github_api_base host ++ (str "/repos/" ++ repo) in
      elim (Option-cases (get url token n).0) [
        | inl e ↦ absurd (cc (rw e at h))
        | inr (reply, e) ↦ elim (Option-cases reply.decoded) [
          | inl d ↦ ground arith
          | inr (body, d) ↦
              let lasting : ttl ≡ github_token_ttl until reply.expiration = ground arith in
              (
                url,
                reply,
                body,
                (
                  github_api_base-IsApiUrl host repo,
                  e,
                  ground arith,
                  d,
                  rw lasting (github_token_ttl-Lasts reply.expiration),
                  ground arith,
                ),
              )
        ]
      ]
