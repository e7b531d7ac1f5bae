-- ===== src/Storage/Filesystem/Put.antt =====
-- Put stores an object whole or not at all.
use git_lfs_server.Base.{
  ◌≡◌, ◌≢◌, ◌⊎◌, inl, inr, ap, sym, ◌∙◌, ◌≤◌, is_some, All, true, false, none, some, List, [], ◌∷◌,
  arith, Bool-cases, Option-cases, length,
}
use git_lfs_server.Base.Text.{Str}
use git_lfs_server.Error.{Error, Result, ok, err}
use git_lfs_server.Effect.{deferred}
use git_lfs_server.Effect.Laws.{bind_post, bind-pure_state, >>=-ok}
use git_lfs_server.Storage.{Source}
use git_lfs_server.Storage.Filesystem.{
  Fs, FilesystemBackend, syscall, read_file, remove, no_write, temp_path, create_temp, fill_temp,
  put_new, put, storage_path, uri_from_path, drawn, first_fault, called,
}
use git_lfs_server.Storage.Filesystem.Files.{
  IsWhole, no_write-files, remove-path, fill_temp-IsWhole, fill_temp-ok,
}

-- The name of none of the temporary files that may be drawn.
abbrev pub IsLasting : FilesystemBackend → Str → List Str → Type 0
IsLasting b path rs = All (λ r. path ≢ temp_path b r) rs

lasting :
    (b : FilesystemBackend) (path : Str) (fs fs' : Fs) (r : Result (Unit {0}))
    → no_write fs ≡ (r, fs')
    → IsLasting b path fs.randoms
    → IsLasting b path fs'.randoms
unfolding no_write syscall
lasting b path fs fs' r h lasts =
    let same : fs'.randoms ≡ fs.randoms = ground arith in rw same lasts

module _ (b : FilesystemBackend) (path : Str) where
  drawn-ok :
      (rs : List Str) (temp : Str) (fs fs' : Fs)
      → IsLasting b path rs
      → drawn b rs fs ≡ (ok temp, fs')
      → (path ≢ temp) × (fs'.files path ≡ fs.files path)
  drawn-ok [] temp fs fs' lasts h = absurd (cc)
  drawn-ok (r ∷ rs) temp fs fs' lasts h = ground (arith, lasts.0)

  drawn-err :
      (rs : List Str) (e : Error) (fs fs' : Fs)
      → drawn b rs fs ≡ (err e, fs')
      → fs'.files path ≡ fs.files path
  drawn-err [] e fs fs' h = ground arith
  drawn-err (r ∷ rs) e fs fs' h = ground arith

  create_temp-ok :
      (temp : Str) (fs fs' : Fs)
      → IsLasting b path fs.randoms
      → create_temp b fs ≡ (ok temp, fs')
      → (path ≢ temp) × (fs'.files path ≡ fs.files path)
  unfolding create_temp syscall
  create_temp-ok temp fs fs' lasts h = elim (Bool-cases (first_fault fs.faults)) [
    | inl e ↦ absurd (cc (rw e at h))
    | inr e ↦ drawn-ok fs.randoms temp (called fs) fs' lasts (rw e at h)
  ]

  create_temp-err :
      (e : Error) (fs fs' : Fs) → create_temp b fs ≡ (err e, fs') → fs'.files path ≡ fs.files path
  unfolding create_temp syscall
  create_temp-err x fs fs' h = elim (Bool-cases (first_fault fs.faults)) [
    | inl e ↦ ground arith
    | inr e ↦ drawn-err fs.randoms x (called fs) fs' (rw e at h)
  ]

  -- The deferred os.Remove leaves the file alone.
  deferred-IsWhole :
      (temp final : Str) (source : Source) (fs : Fs)
      → path ≢ temp
      → IsWhole final source path fs (deferred (remove temp) (fill_temp temp final source) fs).1
  unfolding deferred
  deferred-IsWhole temp final (bytes, e) fs ne =
      let done = (fill_temp temp final (bytes, e) fs).1 in
      let last = remove-path temp path ne done in
      let w = fill_temp-IsWhole temp path ne final bytes e fs in ground arith

  put_new-IsWhole :
      (final : Str) (source : Source) (fs : Fs)
      → IsLasting b path fs.randoms
      → IsWhole final source path fs (put_new b final source fs).1
  unfolding put_new
  put_new-IsWhole final source fs lasts =
      bind_post (λ x. IsWhole final source path fs x.1) no_write _ fs
        (λ e s₁ k. inl (ap (λ g. g path) (no_write-files fs s₁ _ k)))
        λ u s₁ k₁.
          bind_post (λ x. IsWhole final source path fs x.1) (create_temp b) _ s₁
            (λ e s₂ k.
              inl (create_temp-err e s₁ s₂ k ∙ ap (λ g. g path) (no_write-files fs s₁ _ k₁)))
            λ temp s₂ k₂.
              let (ne, same) = create_temp-ok temp s₁ s₂ (lasting b path fs s₁ _ k₁ lasts) k₂ in
              let w = deferred-IsWhole temp final source s₂ ne in
              let last =
                bind-pure_state (deferred (remove temp) (fill_temp temp final source))
                  (uri_from_path b final) s₂ in
              let first = ap (λ g. g path) (no_write-files fs s₁ _ k₁) in ground arith

-- Put, whatever it returns and whichever calls fail, leaves a file, other than the temporary ones
-- that may be drawn, as it was, or has stored at the object's path the bytes of a source that it
-- has read without error.
pub put-IsWhole :
    (b : FilesystemBackend) (oid : Str) (source : Source) (path : Str) (fs : Fs)
    → IsLasting b path fs.randoms
    → IsWhole (storage_path b oid) source path fs (put b oid source fs).1
unfolding put read_file syscall
put-IsWhole b oid source path fs lasts = elim (Option-cases (fs.files (storage_path b oid))) [
  | inl e ↦ ground (arith, put_new-IsWhole b path (storage_path b oid) source (called fs) lasts)
  | inr (bytes, e) ↦
      ground (arith, put_new-IsWhole b path (storage_path b oid) source (called fs) lasts)
]

put_new-ok :
    (b : FilesystemBackend) (final : Str) (source : Source) (fs fs' : Fs) (uri : Str)
    → IsLasting b final fs.randoms
    → put_new b final source fs ≡ (ok uri, fs')
    → (uri ≡ uri_from_path b final) × (source.1 ≡ none) × (fs'.files final ≡ some source.0)
unfolding put_new deferred
put_new-ok b final (bytes, e) fs fs' uri lasts h =
    let (u₁, s₁, k₁, h₁) = >>=-ok no_write _ fs fs' uri h in
    let (temp, s₂, k₂, h₂) = >>=-ok (create_temp b) _ s₁ fs' uri h₁ in
    let (ne, _) = create_temp-ok b final temp s₁ s₂ (lasting b final fs s₁ _ k₁ lasts) k₂ in
    let (u₃, s₃, k₃, h₃) =
      >>=-ok (deferred (remove temp) (fill_temp temp final (bytes, e))) _ s₂ fs' uri h₂ in
    let done = (fill_temp temp final (bytes, e) s₂).1 in
    let (fine, there) =
      fill_temp-ok temp final bytes e s₂ done u₃ ne (ap (λ r. (r, done)) (ap (λ p. p.0) k₃)) in
    let last = remove-path temp final ne done in
    let moved = sym (ap (λ p. p.1) h₃) ∙ sym (ap (λ p. p.1) k₃) in
    (ground arith, fine, ap (λ f. f.files final) moved ∙ last ∙ there)

-- Put that returns, where the object's path is of no temporary file that may be drawn, has returned
-- the URI of that path, which does not depend on the source, and a file is there: the one that was
-- there before, or the bytes of a source that was read without error.
pub put-ok :
    (b : FilesystemBackend) (oid : Str) (source : Source) (fs fs' : Fs) (uri : Str)
    → IsLasting b (storage_path b oid) fs.randoms
    → put b oid source fs ≡ (ok uri, fs')
    → (uri ≡ uri_from_path b (storage_path b oid))
      × ((is_some (fs.files (storage_path b oid)) ≡ true)
            × (fs'.files (storage_path b oid) ≡ fs.files (storage_path b oid))
          ⊎ (source.1 ≡ none) × (fs'.files (storage_path b oid) ≡ some source.0))
unfolding put read_file syscall
put-ok b oid source fs fs' uri lasts h = elim (Option-cases (fs.files (storage_path b oid))) [
  | inl e ↦ ground (arith, put_new-ok b (storage_path b oid) source (called fs) fs' uri lasts)
  | inr (bytes, e) ↦
      ground (arith, put_new-ok b (storage_path b oid) source (called fs) fs' uri lasts)
]

-- Put of an object whose file is there, where the first system call does not fail, returns its URI
-- and writes nothing, whatever the source would give: bytes of another size or hash, or an error.
pub put_existing :
    (b : FilesystemBackend) (oid : Str) (source : Source) (fs : Fs)
    → 4 ≤ length oid
    → is_some (fs.files (storage_path b oid)) ≡ true
    → first_fault fs.faults ≡ false
    → put b oid source fs ≡ (ok (uri_from_path b (storage_path b oid)), called fs)
unfolding put read_file syscall
put_existing b oid source fs long there up = elim (Option-cases (fs.files (storage_path b oid))) [
  | inl e ↦ absurd (cc (rw e at there))
  | inr (bytes, e) ↦ ground arith
]
