-- ===== src/Storage/Filesystem/Uris.antt =====
-- internal/storage/filesystem.go: uriFromPath and pathFromURI.
use mathlib.Core.List.{append_assoc, append-nil}
use git_lfs_server.Base.{
  ◌≡◌, ◌≢◌, refl, sym, ap, ◌∙◌, Bool, true, Option, none, some, List, [], ◌∷◌, ◌++◌, all, take,
  arith, inl, inr, ◌⊎◌,
}
use git_lfs_server.Base.Text.{Str, str, has_prefix, cut_prefix, trim_suffix}
use git_lfs_server.Error.{ok}
use git_lfs_server.Storage.FilePath.{slash, clean, abs, render}
use git_lfs_server.Storage.FilePath.Clean.{ArePlain, clean_idem, inner, render-inner}
use git_lfs_server.Storage.FilePath.Under.{
  IsClean, abs-IsClean, has_prefix-below, below-has_prefix, render-below,
}
use git_lfs_server.Storage.Url.{url_parse}
use git_lfs_server.Storage.Url.Safe.{
  is_safe, IsScheme, url_parse-safe, trim_suffix-append, all-append,
}
use git_lfs_server.Storage.Filesystem.{
  FilesystemBackend, new_filesystem_backend, storage_path, uri_from_path, path_from_uri, inside,
  drop,
}
use git_lfs_server.Server.{is_hex_digit, matches_oid}
use git_lfs_server.Storage.Filesystem.Paths.{object_parts, storage_path-eq}

-- The root and the directory of the temporary files are clean paths.
pub new_filesystem_backend-IsClean :
    (cwd name scheme root temp_dir : Str) (b : FilesystemBackend)
    → new_filesystem_backend cwd name scheme root temp_dir ≡ ok b
    → IsClean b.root × IsClean b.temp_dir
unfolding new_filesystem_backend
new_filesystem_backend-IsClean cwd name scheme root temp_dir b h =
    let same : (b.root ≡ abs cwd root) × (b.temp_dir ≡ abs cwd temp_dir) = ground arith in
    (rw same.0 (abs-IsClean cwd root), rw same.1 (abs-IsClean cwd temp_dir))

module _ (host_ok : Str → Bool) (cwd : Str) (b : FilesystemBackend) (root : IsClean b.root) where
  inside-IsBelow :
      (found : Option (Str × Str)) (p : Str)
      → inside host_ok cwd b found ≡ ok p
      → (path : Str) × (p ≡ abs cwd path)
        × ((has_prefix p (b.root ++ slash ∷ []) ≡ true) ⊎ (p ≡ b.root))
  inside-IsBelow none p h = cc
  inside-IsBelow (some (scheme, path)) p h = (path, ground arith, ground arith)

  -- pathFromURI that returns a path returns a clean one, whose elements are those of the root
  -- followed by others, none of which is "." or "..": no URI leads out of the root.
  pub path_from_uri-IsBelow :
      (uri p : Str)
      → path_from_uri host_ok cwd b uri ≡ ok p
      → (below : List Str) × ArePlain below × (p ≡ render (root.elements ++ below))
  unfolding path_from_uri
  path_from_uri-IsBelow uri p h =
      let (path, same, inside_root) = inside-IsBelow (url_parse host_ok uri) p h in
      let tidy = abs-IsClean cwd path in
      let named : p ≡ render tidy.elements = same ∙ tidy.rendered in
      elim inside_root [
        | inl pre ↦
            let (qs, split, fine) =
              has_prefix-below root.elements tidy.elements root.are_plain tidy.are_plain
                (rw (named, root.rendered) at pre) in
            (qs, fine, named ∙ ap render split)
        | inr e ↦ ([], tt, e ∙ root.rendered ∙ ap render (sym (append-nil root.elements)))
      ]

hex-safe : (s : Str) → all is_hex_digit s ≡ true → all is_safe s ≡ true
hex-safe [] h = refl
hex-safe (c ∷ s) h = ground (arith, hex-safe s)

object-safe :
    (oid : Str)
    → matches_oid oid ≡ true
    → all is_safe (inner (take 2 oid) (take 2 (drop 2 oid) ∷ oid ∷ [])) ≡ true
unfolding matches_oid
object-safe [] h = cc
object-safe (a ∷ []) h = cc
object-safe (a ∷ b ∷ []) h = cc
object-safe (a ∷ b ∷ c ∷ []) h = cc
object-safe (a ∷ b ∷ c ∷ d ∷ s) h = ground (arith, hex-safe (a ∷ b ∷ c ∷ d ∷ s))

-- A root that is not "/" and has no "%", "?", "#" or control character, and a scheme in lower case
-- with "://" behind it.
pub record IsReadable (b : FilesystemBackend) : Type 0 where
  pub tidy : IsClean b.root
  pub below : b.root ≢ slash ∷ []
  pub root_safe : all is_safe b.root ≡ true
  pub word : Str
  pub is_scheme : IsScheme word
  pub scheme_is : b.scheme ≡ word ++ str "://"

module _ (host_ok : Str → Bool) (cwd : Str) (b : FilesystemBackend) (r : IsReadable b) (oid : Str)
    (valid : matches_oid oid ≡ true) where
  -- The object's path is the root, a slash, and the rest.
  storage_path-split :
      (storage_path b oid ≡ b.root ++ slash ∷ inner (take 2 oid) (take 2 (drop 2 oid) ∷ oid ∷ []))
      × (has_prefix (storage_path b oid) (b.root ++ slash ∷ []) ≡ true)
  unfolding render
  storage_path-split = go r.tidy.elements r.tidy.rendered (storage_path-eq b r.tidy oid valid)
    where
      go :
          (rs : List Str)
          → b.root ≡ render rs
          → storage_path b oid ≡ render (rs ++ object_parts oid)
          → (storage_path b oid
              ≡ b.root ++ slash ∷ inner (take 2 oid) (take 2 (drop 2 oid) ∷ oid ∷ []))
            × (has_prefix (storage_path b oid) (b.root ++ slash ∷ []) ≡ true)
      go [] e k = absurd (r.below e)
      go (x ∷ xs) e k =
          rw (k, e)
            (
              render-below x xs (take 2 oid) (take 2 (drop 2 oid) ∷ oid ∷ []),
              below-has_prefix x xs (take 2 oid) (take 2 (drop 2 oid) ∷ oid ∷ []),
            )

  storage_path-rooted : (rest : Str) × (storage_path b oid ≡ slash ∷ rest)
  storage_path-rooted = go r.tidy.elements (storage_path-eq b r.tidy oid valid)
    where
      go :
          (rs : List Str)
          → storage_path b oid ≡ render (rs ++ object_parts oid)
          → (rest : Str) × (storage_path b oid ≡ slash ∷ rest)
      go [] k = (_, k ∙ render-inner (take 2 oid) (take 2 (drop 2 oid) ∷ oid ∷ []))
      go (x ∷ xs) k = (_, k ∙ render-inner x (xs ++ object_parts oid))

  storage_path-safe : all is_safe (storage_path b oid) ≡ true
  storage_path-safe =
      ap (all is_safe) storage_path-split.0
      ∙ all-append is_safe b.root _ r.root_safe (object-safe oid valid)

  storage_path-abs : abs cwd (storage_path b oid) ≡ storage_path b oid
  unfolding abs storage_path has_prefix cut_prefix
  storage_path-abs =
      let (rest, e) = storage_path-rooted in
      let fixed : clean (storage_path b oid) ≡ storage_path b oid = clean_idem _ in
      let rooted : has_prefix (storage_path b oid) (slash ∷ []) ≡ true =
        ap (λ p. has_prefix p (slash ∷ [])) e in
      ground (arith, fixed, rooted)

  parsed_uri :
      host_ok [] ≡ true
      → url_parse host_ok (uri_from_path b (storage_path b oid)) ≡ some (r.word, storage_path b oid)
  unfolding uri_from_path str has_prefix cut_prefix
  parsed_uri fine =
      let (rest, e) = storage_path-rooted in
      ap (λ p. url_parse host_ok (uri_from_path b p)) e
      ∙ ap (λ x. url_parse host_ok (x ++ slash ∷ rest)) r.scheme_is
      ∙ ap (url_parse host_ok) (append_assoc r.word (str "://") (slash ∷ rest))
      ∙ url_parse-safe host_ok r.word rest fine r.is_scheme
          (ap (all is_safe) (sym e) ∙ storage_path-safe)
      ∙ ap (λ p. some (r.word, p)) (sym e)

  -- For a filesystem backend whose root is clean, is not "/", and has no "%", "?", "#" or control
  -- character, and whose scheme is one in lower case; an object id that matches the pattern; and a
  -- test of the authority by net/url that accepts the empty one: pathFromURI of the URI of the path of
  -- the object gives that path.
  pub path_from_uri-uri_from_path :
      host_ok [] ≡ true
      → path_from_uri host_ok cwd b (uri_from_path b (storage_path b oid)) ≡ ok (storage_path b oid)
  unfolding path_from_uri
  path_from_uri-uri_from_path fine =
      let word : trim_suffix b.scheme (str "://") ≡ r.word =
        ap (λ x. trim_suffix x (str "://")) r.scheme_is ∙ trim_suffix-append r.word (str "://") in
      rw (parsed_uri fine, word, storage_path-abs, storage_path-split.1) (ground arith)
