-- ===== src/Tests/Replies.antt =====
-- Forges, guards and files at concrete inputs.
use git_lfs_server.Base.{
  ℕ, ◌==◌, if◌then◌else◌, ◌≡◌, ◌↔◌, ◌≢◌, ◌⊎◌, refl, none, some, List, [], ◌∷◌, ◌++◌, true, false,
  arith, is_some, Option,
}
use git_lfs_server.Base.Int.{ℤ, pos}
use git_lfs_server.Base.Text.{Str, str}
use git_lfs_server.Error.{ok}
use git_lfs_server.Forge.GitHub.{
  GithubReply, GithubRepoResponse, github_authorize, github_token_ttl,
}
use git_lfs_server.Forge.GitHub.Grants.{IsApiUrl, Lasts, github_authorize-Lasts}
use git_lfs_server.Forge.GitLab.{allow_git_service, gitlab_authorize}
use git_lfs_server.Forge.GitLab.Grants.{Grants, gitlab_authorize-Grants}
use git_lfs_server.Storage.Filesystem.{Fs, put, storage_path, temp_path}
use git_lfs_server.Storage.Filesystem.Put.{put-IsWhole}
use git_lfs_server.Storage.Filesystem.Files.{IsWhole}
use git_lfs_server.Server.{read, write}
use git_lfs_server.Tests.{oid, backend, files}

-- A repository that the token may push to.
abbrev reply : GithubReply
reply = record {
  status = 200;
  decoded = some (record { pull = true; push = true });
  expiration = [];
}

abbrev get : Str → Str → Unit {0} → Option GithubReply × Unit {0}
get url token n = (some reply, n)

abbrev never : Str → Str → Option ℤ
never layout header = none

github_eq :
    github_authorize never get (str "github.com") (str "o/r") [] (str "t") tt
    ≡ (ok (write, pos 0), tt)
unfolding github_authorize github_token_ttl git_lfs_server.Base.Text.is_empty
github_eq = refl

github_authorize-Lasts_example :
    (url : Str) × (r : GithubReply) × (b : GithubRepoResponse) × (IsApiUrl
        (str "github.com")
        (str "o/r")
        url
      × ((get url (str "t") tt).0 ≡ some r)
      × (r.status ≡ 200)
      × (r.decoded ≡ some b)
      × Lasts never r.expiration (pos 0)
      × (((write ≡ write) × (b.push ≡ true))
          ⊎ ((write ≡ read) × (b.push ≡ false) × (b.pull ≡ true))))
github_authorize-Lasts_example =
    github_authorize-Lasts never get (str "github.com") (str "o/r") [] (str "t") tt tt write (pos 0)
      github_eq

abbrev status : Str → Str → Str → Unit {0} → Option ℕ × Unit {0}
status url user token n = (some 200, n)

gitlab_authorize-Grants_example :
    ((gitlab_authorize status (str "gitlab.com") (str "o/r") [] (str "t") tt).0 ≡ ok (write, pos 0))
    ↔ Grants status (str "gitlab.com") (str "o/r") [] (str "t") write (pos 0) tt
gitlab_authorize-Grants_example =
    gitlab_authorize-Grants status (str "gitlab.com") (str "o/r") [] (str "t") tt write (pos 0)

-- A user who may fetch, but not push.
abbrev reader : Str → Str → Str → ℕ → Option ℕ × ℕ
reader url user token n = (if n == 0 then some 403 else some 200, 1)

gitlab_reader :
    (gitlab_authorize reader (str "gitlab.com") (str "o/r") [] (str "t") 0).0 ≡ ok (read, pos 0)
unfolding gitlab_authorize allow_git_service
gitlab_reader = refl

-- Every path has a file.
abbrev full : Fs
full = record files { files = λ q. some (1 ∷ []) }

path_differs : str "/r/x" ≢ temp_path backend (str "1")
unfolding str git_lfs_server.Base.Text.dec_str git_lfs_server.Storage.FilePath.split_slash
    git_lfs_server.Storage.FilePath.resolve git_lfs_server.Storage.FilePath.resolve_all
    git_lfs_server.Storage.FilePath.render git_lfs_server.Storage.FilePath.clean
    git_lfs_server.Base.ℕ_discrete
path_differs h = cc

put-IsWhole_example :
    IsWhole
      (storage_path backend oid)
      (7 ∷ [], none)
      (str "/r/x")
      files
      (put backend oid (7 ∷ [], none) files).1
put-IsWhole_example = put-IsWhole backend oid (7 ∷ [], none) (str "/r/x") files (path_differs, tt)
