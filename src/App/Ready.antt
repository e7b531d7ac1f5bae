-- ===== src/App/Ready.antt =====
-- cmd/lfsd/main.go: the server that main has started, and the requests that it lets through.
use git_lfs_server.Base.{
  ℕ, ◌≡◌, refl, sym, ap, ◌∙◌, subst, Bool, true, Option, none, some, List, [], ◌∷◌, is_some,
}
use git_lfs_server.Base.Int.{ℤ}
use git_lfs_server.Base.Text.{Str, str}
use git_lfs_server.Error.{ok}
use git_lfs_server.Storage.Filesystem.{Fs}
use git_lfs_server.Storage.Presign.{S3Client}
use git_lfs_server.Forge.Allowlist.{and_then-ok, ok-injective}
use git_lfs_server.Forge.GitHub.{GithubReply}
use git_lfs_server.Server.{Permission, host_from_context}
use git_lfs_server.Auth.{Cache, passed}
use git_lfs_server.Auth.Allowed.{authorize-IsAllowed}
use git_lfs_server.Config.{Configured, entry}
use git_lfs_server.Config.Load.{Ini, load_config, load_config-hosts}
use git_lfs_server.Logging.{coalesce}
use git_lfs_server.App.{Lfsd, Request, State, permission}
use git_lfs_server.App.Start.{in_use, lfsd, start}

in_use-is_some :
    {S : Type 0} (host_ok : Str → Bool) (cwd : Str) (b : Option (Configured S))
    → is_some (in_use host_ok cwd b) ≡ is_some b
in_use-is_some host_ok cwd none = refl
in_use-is_some host_ok cwd (some b) = refl

module _ {S N F : Type 0} (host_ok : Str → Bool) (cwd : Str) (sha256 : List ℕ → List ℕ)
    (cache : Cache N) (endpoint_ok : Str → Bool) (client : S3Client S)
    (until : Str → Str → Option ℤ) (github : Str → Str → N → Option GithubReply × N)
    (gitlab : Str → Str → Str → N → Option ℕ × N) (ini : Ini F) (embedded : Str) where
  -- A server that main has started has a storage for the host of every request that the middleware
  -- lets through to a handler, whatever the configuration that was accepted.
  pub start-has_storage :
      (env : Str) (site : Lfsd (Fs × S) N) (req : Request) (st : State (Fs × S) N)
      (perm : Permission) (net : N)
      → start host_ok cwd sha256 cache endpoint_ok client until github gitlab ini embedded env
        ≡ ok site
      → permission site req st ≡ (passed perm, net)
      → is_some (site.storages (host_from_context req.params)) ≡ true
  unfolding start lfsd
  start-has_storage env site req st perm net e allowed =
      let host = host_from_context req.params in
      let (config, loaded, last) =
        and_then-ok
          (load_config cwd endpoint_ok client until github gitlab ini embedded
            (coalesce (env ∷ str "config.ini" ∷ [])))
          _ site e in
      let (paired, _, _) =
        load_config-hosts cwd endpoint_ok client until github gitlab ini embedded _ config loaded in
      let fits : lfsd host_ok cwd sha256 cache config ≡ site = ok-injective last in
      let a =
        authorize-IsAllowed site.sha256 site.cache site.forges req.params req.basic_auth st.net net
          perm allowed in
      let found : entry host config.forges ≡ some a.provider =
        ap (λ x. x.forges host) fits ∙ a.configured in
      subst (λ x. is_some (x.storages host) ≡ true) fits
        (in_use-is_some host_ok cwd (entry host config.storages)
          ∙ sym (paired host)
          ∙ ap is_some found)
