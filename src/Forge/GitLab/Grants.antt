-- ===== src/Forge/GitLab/Grants.antt =====
-- internal/forge/gitlab.go: what the GitLab provider grants, by the statuses that GitLab answers.
use git_lfs_server.Base.{
  ℕ, ◌≡◌, refl, ◌⊎◌, ◌↔◌, true, false, Bool, Option, none, some, ◌++◌, arith, inl, inr,
  if◌then◌else◌,
}
use git_lfs_server.Base.Int.{ℤ, pos}
use git_lfs_server.Base.Text.{Str, str, is_empty}
use git_lfs_server.Error.{Result, ok, err}
use git_lfs_server.Server.{Permission, read, write}
use git_lfs_server.Forge.GitLab.{
  gitlab_smart_http_url, service_status, allow_git_service, first, gitlab_authorize,
}

-- GitLab answered that the service is not for this user.
abbrev pub IsRefused : Option ℕ → Type 0
IsRefused code = (code ≡ some 401) ⊎ ((code ≡ some 403) ⊎ (code ≡ some 404))

service_status-true : (code : Option ℕ) → (service_status code ≡ ok true) ↔ (code ≡ some 200)
service_status-true none = (λ h. absurd (cc (h)), λ h. absurd (cc (h)))
service_status-true (some code) = (λ h. ground arith, λ h. ground arith)

service_status-false : (code : Option ℕ) → (service_status code ≡ ok false) ↔ IsRefused code
service_status-false none = (
  λ h. absurd (cc (h)),
  λ h. elim h [
    | inl e ↦ absurd (cc (e))
    | inr (inl e) ↦ absurd (cc (e))
    | inr (inr e) ↦ absurd (cc (e))
  ],
)
service_status-false (some code) = (
  λ h. ground arith,
  λ h. elim h [ inl e ↦ ground arith | inr (inl e) ↦ ground arith | inr (inr e) ↦ ground arith ],
)

module _ {N : Type 0} (get : Str → Str → Str → N → Option ℕ × N)
    (host repo username token : Str) where
  -- GitLab's answer to a service of the repository, asked with the token and the user name, or with
  -- "oauth2" where there is none.
  abbrev pub asked : Str → N → Option ℕ × N
  asked service n =
      get (gitlab_smart_http_url (str "https://" ++ host) repo service)
        (if is_empty username then str "oauth2" else username) token n

  -- Write for who may push, and read for who may not push but may fetch, for no set time.
  abbrev pub Grants : Permission → ℤ → N → Type 0
  Grants perm ttl n =
      let (pushed, n') = asked (str "git-receive-pack") n in
      ((perm ≡ write) × (ttl ≡ pos 0) × (pushed ≡ some 200))
      ⊎ ((perm ≡ read)
          × (ttl ≡ pos 0)
          × IsRefused pushed
          × ((asked (str "git-upload-pack") n').0 ≡ some 200))

  second_lem :
      (perm : Permission) (ttl : ℤ) (r : Result Bool) (n : N)
      → ((git_lfs_server.Forge.GitLab.second get host (r, n)).0 ≡ ok (perm, ttl))
        ↔ ((perm ≡ read) × (ttl ≡ pos 0) × (r ≡ ok true))
  second_lem perm ttl (err e) n = (λ h. absurd (cc (h)), λ h. absurd (cc (h.2)))
  second_lem perm ttl (ok true) n = (λ h. ground arith, λ h. ground arith)
  second_lem perm ttl (ok false) n = (λ h. absurd (cc (h)), λ h. absurd (cc (h.2)))

  -- Authorize gives a permission and a duration exactly where it is write, GitLab having answered
  -- the question for git-receive-pack with 200; or read, GitLab having answered that question with
  -- 401, 403 or 404 and after it the one for git-upload-pack with 200. The duration is 0. Both are
  -- asked with the token, under the user name or, where it is empty, "oauth2".
  pub gitlab_authorize-Grants :
      (n : N) (perm : Permission) (ttl : ℤ)
      → ((gitlab_authorize get host repo username token n).0 ≡ ok (perm, ttl)) ↔ Grants perm ttl n
  unfolding gitlab_authorize allow_git_service
  gitlab_authorize-Grants n perm ttl = go (asked (str "git-receive-pack") n)
    where
      go :
          (a : Option ℕ × N)
          → ((first get host repo username token (service_status a.0, a.1)).0 ≡ ok (perm, ttl)) ↔ (
              ((perm ≡ write) × (ttl ≡ pos 0) × (a.0 ≡ some 200))
              ⊎ ((perm ≡ read)
                  × (ttl ≡ pos 0)
                  × IsRefused a.0
                  × ((asked (str "git-upload-pack") a.1).0 ≡ some 200)))
      go (code, n') = decide (service_status code) refl
        where
          decide :
              (r : Result Bool)
              → service_status code ≡ r
              → ((first get host repo username token (service_status code, n')).0 ≡ ok (perm, ttl))
                ↔ (((perm ≡ write) × (ttl ≡ pos 0) × (code ≡ some 200))
                    ⊎ ((perm ≡ read)
                        × (ttl ≡ pos 0)
                        × IsRefused code
                        × ((asked (str "git-upload-pack") n').0 ≡ some 200)))
          decide (err e) k = (
            λ h. absurd (cc (rw k at h)),
            λ h. elim h [
              | inl (w, t, c) ↦ absurd (cc ((service_status-true code).1 c, k))
              | inr (w, t, c, d) ↦ absurd (cc ((service_status-false code).1 c, k))
            ],
          )
          decide (ok true) k = (
            λ h.
                let it = rw k at h in
                inl (ground arith, ground arith, (service_status-true code).0 k),
            λ h. elim h [
              | inl (w, t, c) ↦ rw (k, w, t) refl
              | inr (w, t, c, d) ↦ absurd (cc ((service_status-false code).1 c, k))
            ],
          )
          decide (ok false) k =
              let next = asked (str "git-upload-pack") n' in
              let both = second_lem perm ttl (service_status next.0) next.1 in
              (
                λ h.
                    let (w, t, c) = both.0 (rw k at h) in
                    inr (w, t, (service_status-false code).0 k, (service_status-true next.0).0 c),
                λ h. elim h [
                  | inl (w, t, c) ↦ absurd (cc ((service_status-true code).1 c, k))
                  | inr (w, t, c, d) ↦ rw k (both.1 (w, t, (service_status-true next.0).1 d))
                ],
              )
