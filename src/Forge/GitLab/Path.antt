-- ===== src/Forge/GitLab/Path.antt =====
-- internal/forge/gitlab.go: the path of the URL that is asked names the repository.
use mathlib.Core.List.{append-nil}
use git_lfs_server.Base.{
  ℕ, ◌≡◌, ◌/◌, ◌%◌, ◌<◌, Bool, true, not, ◌||◌, all, refl, sym, ap, ◌∙◌, some, List, [], ◌∷◌, ◌++◌,
  ◌==◌, map, All, arith, Bool-cases, inl, inr,
}
use git_lfs_server.Base.Text.{Str, str}
use git_lfs_server.Iox.Hex.Round.{AreBytes}
use git_lfs_server.Storage.FilePath.{slash, split_slash}
use git_lfs_server.Storage.FilePath.Clean.{split-cons}
use git_lfs_server.Storage.Url.{unescape, upper_hex}
use git_lfs_server.Storage.Url.Safe.{all-append, all-cons, all-escaped}
use git_lfs_server.Storage.Url.Escape.{unescape-nil, unescape-plain, unescape-byte}
use git_lfs_server.Forge.GitLab.{is_segment_byte, path_escape, join_slash, gitlab_smart_http_url}

-- An escaped segment, before what is read back as `t`.
segment-unescape :
    (p rest t : Str)
    → AreBytes p
    → unescape rest ≡ some t
    → unescape (path_escape p ++ rest) ≡ some (p ++ t)
unfolding path_escape is_segment_byte
segment-unescape [] rest t h e = e
segment-unescape (c ∷ p) rest t h e =
    let more = segment-unescape p rest t h.1 e in
    elim (Bool-cases (is_segment_byte c)) [
      | inl k ↦ rw k (unescape-plain c (path_escape p ++ rest) (p ++ t) (ground arith) more)
      | inr k ↦ rw k (unescape-byte c (path_escape p ++ rest) (p ++ t) h.0 more)
    ]

join-unescape :
    (ps : List Str)
    → All AreBytes ps
    → unescape (join_slash (map path_escape ps)) ≡ some (join_slash ps)
unfolding join_slash
join-unescape [] h = unescape-nil
join-unescape (p ∷ []) h =
    ap unescape (sym (append-nil (path_escape p)))
    ∙ segment-unescape p [] [] h.0 unescape-nil
    ∙ ap some (append-nil p)
join-unescape (p ∷ q ∷ ps) h =
    segment-unescape p (slash ∷ join_slash (map path_escape (q ∷ ps))) (slash ∷ join_slash (q ∷ ps))
      h.0 (unescape-plain slash _ _ refl (join-unescape (q ∷ ps) h.1))

join-grow : (c : ℕ) (p : Str) (ps : List Str) → join_slash ((c ∷ p) ∷ ps) ≡ c ∷ join_slash (p ∷ ps)
unfolding join_slash
join-grow c p [] = refl
join-grow c p (q ∷ ps) = refl

join-split : (s : Str) → join_slash (split_slash s) ≡ s
unfolding join_slash split_slash
join-split [] = refl
join-split (c ∷ s) =
    let (p, ps, e) = split-cons s in
    let rest = rw e at (join-split s) in
    elim (Bool-cases (c == slash)) [
      | inl k ↦
          let same : slash ≡ c = ground arith in
          rw (k, e) (ap (λ r. slash ∷ r) rest ∙ ap (λ x. x ∷ s) same)
      | inr k ↦ rw (k, e) (join-grow c p ps ∙ ap (λ r. c ∷ r) rest)
    ]

split-bytes : (s : Str) → AreBytes s → All AreBytes (split_slash s)
unfolding split_slash
split-bytes [] h = (tt, tt)
split-bytes (c ∷ s) h =
    let (p, ps, e) = split-cons s in
    let rest = split-bytes s h.1 in
    elim (Bool-cases (c == slash)) [
      | inl k ↦ rw k (tt, rest)
      | inr k ↦ let parts = rw e at rest in rw (k, e) ((h.0, parts.0), parts.1)
    ]

unescape-path :
    (repo : Str)
    → AreBytes repo
    → unescape (join_slash (map path_escape (split_slash repo))) ≡ some repo
unescape-path repo h =
    join-unescape (split_slash repo) (split-bytes repo h) ∙ ap some (join-split repo)

-- A byte that does not end the path of an URL.
abbrev pub is_path_byte : ℕ → Bool
is_path_byte c = not (c == b'?' || c == b'#')

segment-path : (c : ℕ) → is_segment_byte c ≡ true → is_path_byte c ≡ true
unfolding is_segment_byte
segment-path c h = ground arith

hex-path : (n : ℕ) → n < 16 → is_path_byte (upper_hex n) ≡ true
unfolding upper_hex
hex-path n h = ground arith

path_escape-path : (p : Str) → AreBytes p → all is_path_byte (path_escape p) ≡ true
unfolding path_escape
path_escape-path [] h = refl
path_escape-path (c ∷ p) h =
    let rest = path_escape-path p h.1 in
    elim (Bool-cases (is_segment_byte c)) [
      | inl e ↦ rw e (all-cons is_path_byte c (path_escape p) (segment-path c e) rest)
      | inr e ↦
          let low = hex-path (c % 16) (omega arith) in
          let high = hex-path (c / 16) (omega (arith, h.0)) in
          rw e (
            all-escaped is_path_byte (upper_hex (c / 16)) (upper_hex (c % 16)) (path_escape p) refl
              high low rest)
    ]

join_slash-path :
    (ps : List Str) → All AreBytes ps → all is_path_byte (join_slash (map path_escape ps)) ≡ true
unfolding join_slash
join_slash-path [] h = refl
join_slash-path (p ∷ []) h = path_escape-path p h.0
join_slash-path (p ∷ q ∷ ps) h =
    all-append is_path_byte (path_escape p) _ (path_escape-path p h.0)
      (join_slash-path (q ∷ ps) h.1)

-- The URL of a service of a repository: below the base, a path that net/url reads back as the
-- repository, and nothing in it that would end the path early; then ".git", and the service.
abbrev pub IsServiceUrl : Str → Str → Str → Str → Type 0
IsServiceUrl base repo service url =
    (path : Str) × ((url ≡ base ++ b'/' ∷ (path ++ (str ".git/info/refs?service=" ++ service)))
      × (unescape path ≡ some repo)
      × (all is_path_byte path ≡ true))

-- The URL that is asked of GitLab for a repository whose elements are bytes is the base, a slash, a
-- path, ".git/info/refs?service=" and the service, where net/url reads the path back as the
-- repository, and the path has no "?" and no "#", which would end it.
pub gitlab_smart_http_url-IsServiceUrl :
    (base repo service : Str)
    → AreBytes repo
    → IsServiceUrl base repo service (gitlab_smart_http_url base repo service)
unfolding gitlab_smart_http_url str
gitlab_smart_http_url-IsServiceUrl base repo service h = (
  join_slash (map path_escape (split_slash repo)),
  (refl, unescape-path repo h, join_slash-path (split_slash repo) (split-bytes repo h)),
)
