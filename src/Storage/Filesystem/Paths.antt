-- ===== src/Storage/Filesystem/Paths.antt =====
-- internal/storage/filesystem.go: the path of an object's file.
use mathlib.Core.List.{append_cancel_left}
use git_lfs_server.Base.{
  ℕ, ◌≡◌, ◌≢◌, refl, sym, ap, ◌∙◌, true, false, List, [], ◌∷◌, ◌++◌, all, All, All-map, take, arith,
}
use git_lfs_server.Base.Text.{Str, str, dec_str}
use git_lfs_server.Storage.FilePath.{slash, clean, render, split_slash, resolve_all}
use git_lfs_server.Storage.FilePath.Clean.{
  ArePlain, plain, slashless, inner, parts-render, All-append,
}
use git_lfs_server.Storage.FilePath.Under.{IsClean, clean-join, tail-injective, head-injective}
use git_lfs_server.Storage.Filesystem.{FilesystemBackend, storage_path, temp_path, drop}
use git_lfs_server.Storage.Filesystem.Put.{IsLasting}
use git_lfs_server.Server.{is_hex_digit, matches_oid}

hex-slashless : (s : Str) → all is_hex_digit s ≡ true → slashless s ≡ true
hex-slashless [] h = refl
hex-slashless (c ∷ s) h = ground (arith, hex-slashless s)

hex-plain : (c : ℕ) (s : Str) → all is_hex_digit (c ∷ s) ≡ true → plain (c ∷ s) ≡ true
unfolding dec_str
hex-plain c s h = let k = hex-slashless (c ∷ s) h in ground arith

-- The elements of an object's path below the root.
abbrev pub object_parts : Str → List Str
object_parts oid = take 2 oid ∷ take 2 (drop 2 oid) ∷ oid ∷ []

object_parts-ArePlain : (oid : Str) → matches_oid oid ≡ true → ArePlain (object_parts oid)
unfolding matches_oid
object_parts-ArePlain [] h = cc
object_parts-ArePlain (a ∷ []) h = cc
object_parts-ArePlain (a ∷ b ∷ []) h = cc
object_parts-ArePlain (a ∷ b ∷ c ∷ []) h = cc
object_parts-ArePlain (a ∷ b ∷ c ∷ d ∷ s) h = (
  hex-plain a (b ∷ []) (ground arith),
  (hex-plain c (d ∷ []) (ground arith), (hex-plain a (b ∷ c ∷ d ∷ s) (ground arith), tt)),
)

abbrev last : List Str → Str
last [] = []
last (p ∷ []) = p
last (p ∷ q ∷ ps) = last (q ∷ ps)

last-append : (ps : List Str) (q : Str) (qs : List Str) → last (ps ++ q ∷ qs) ≡ last (q ∷ qs)
last-append [] q qs = refl
last-append (p ∷ []) q qs = refl
last-append (p ∷ r ∷ ps) q qs = last-append (r ∷ ps) q qs

abbrev upload_name : Str → Str
upload_name random = str "upload-" ++ random

upload_name-plain : (random : Str) → slashless random ≡ true → plain (upload_name random) ≡ true
unfolding str dec_str
upload_name-plain random h = ground arith

upload_name-matches_oid : (random : Str) → matches_oid (upload_name random) ≡ false
unfolding str matches_oid
upload_name-matches_oid random = ground arith

render-injective : (ps qs : List Str) → ArePlain ps → ArePlain qs → render ps ≡ render qs → ps ≡ qs
render-injective ps qs h k e =
    sym (parts-render ps h) ∙ ap (λ r. resolve_all [] (split_slash r)) e ∙ parts-render qs k

module _ (b : FilesystemBackend) (root : IsClean b.root) where
  -- The object's path has the elements of the root, then those of the object id.
  pub storage_path-eq :
      (oid : Str)
      → matches_oid oid ≡ true
      → storage_path b oid ≡ render (root.elements ++ object_parts oid)
  unfolding storage_path
  storage_path-eq oid h =
      ap (λ r. clean (r ++ slash ∷ inner (take 2 oid) (take 2 (drop 2 oid) ∷ oid ∷ [])))
        root.rendered
      ∙ clean-join root.elements (take 2 oid) (take 2 (drop 2 oid) ∷ oid ∷ []) root.are_plain
          (object_parts-ArePlain oid h)

  object-ArePlain :
      (oid : Str) → matches_oid oid ≡ true → ArePlain (root.elements ++ object_parts oid)
  object-ArePlain oid h =
      All-append root.elements (object_parts oid) root.are_plain (object_parts-ArePlain oid h)

  -- Object ids that match the pattern have paths of their own.
  pub storage_path-injective :
      (oid oid' : Str)
      → matches_oid oid ≡ true
      → matches_oid oid' ≡ true
      → storage_path b oid ≡ storage_path b oid'
      → oid ≡ oid'
  storage_path-injective oid oid' h k e =
      let same =
        render-injective _ _ (object-ArePlain oid h) (object-ArePlain oid' k)
          (sym (storage_path-eq oid h) ∙ e ∙ storage_path-eq oid' k) in
      let tails = append_cancel_left root.elements (object_parts oid) (object_parts oid') same in
      head-injective (tail-injective (tail-injective tails))

  module _ (temp : IsClean b.temp_dir) where
    temp_path-eq :
        (random : Str)
        → slashless random ≡ true
        → temp_path b random ≡ render (temp.elements ++ upload_name random ∷ [])
    temp_path-eq random h =
        ap (λ r. clean (r ++ slash ∷ inner (upload_name random) [])) temp.rendered
        ∙ clean-join temp.elements (upload_name random) [] temp.are_plain
            (upload_name-plain random h, tt)

    -- No temporary file has the path of an object.
    temp_path-storage_path :
        (oid random : Str)
        → matches_oid oid ≡ true
        → slashless random ≡ true
        → storage_path b oid ≢ temp_path b random
    temp_path-storage_path oid random h k e =
        let same =
          render-injective _ _ (object-ArePlain oid h)
            (All-append temp.elements (upload_name random ∷ []) temp.are_plain
              (upload_name-plain random k, tt))
            (sym (storage_path-eq oid h) ∙ e ∙ temp_path-eq random k) in
        let named : oid ≡ upload_name random =
          sym (last-append root.elements (take 2 oid) (take 2 (drop 2 oid) ∷ oid ∷ []))
          ∙ ap last same
          ∙ last-append temp.elements (upload_name random) [] in
        absurd (cc (sym h ∙ ap matches_oid named ∙ upload_name-matches_oid random))

    -- The names of the temporary files that os.CreateTemp draws have no slash.
    pub storage_path-IsLasting :
        (oid : Str) (randoms : List Str)
        → matches_oid oid ≡ true
        → All (λ r. slashless r ≡ true) randoms
        → IsLasting b (storage_path b oid) randoms
    storage_path-IsLasting oid randoms h k =
        All-map randoms (λ r fine. temp_path-storage_path oid r h fine) k
