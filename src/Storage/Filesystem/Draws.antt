-- ===== src/Storage/Filesystem/Draws.antt =====
-- What Put, Open and Delete leave of the texts that os.CreateTemp draws, and of the files.
use git_lfs_server.Base.{
  ◌≡◌, ◌⊎◌, refl, subst, inl, inr, ap, ◌∙◌, Bool, none, some, List, [], ◌∷◌, All, arith, Bool-cases,
}
use git_lfs_server.Base.Text.{Str}
use git_lfs_server.Error.{Result, ok, err}
use git_lfs_server.Effect.{Act, ◌>>=◌, deferred}
use git_lfs_server.Effect.Laws.{bind_post}
use git_lfs_server.Storage.{Source}
use git_lfs_server.Storage.Filesystem.{
  Fs, FilesystemBackend, syscall, read_file, remove, no_write, create_temp, drawn, copy_to, rename,
  fill_temp, put_new, put, storage_path, path_from_uri, open_uri, open_file, delete, removed,
  remove_at, called, first_fault,
}

module _ (P : Str → Type 0) where
  abbrev IsDrawn : Fs → Type 0
  IsDrawn fs = All P fs.randoms

  abbrev Keeps : {A : Type 0} → Act Fs A → Type 0
  Keeps m = (fs : Fs) → IsDrawn fs → IsDrawn (m fs).1

  bind-keeps :
      {A B : Type 0} (m : Act Fs A) (f : A → Act Fs B)
      → Keeps m
      → ((a : A) → Keeps (f a))
      → Keeps (m >>= f)
  bind-keeps m f k next fs h =
      bind_post (λ x. IsDrawn x.1) m f fs (λ e s' c. subst (λ x. IsDrawn x.1) c (k fs h))
        (λ a s' c. next a s' (subst (λ x. IsDrawn x.1) c (k fs h)))

  no_write-keeps : Keeps no_write
  unfolding no_write syscall
  no_write-keeps fs h = ground arith

  drawn-keeps :
      (b : FilesystemBackend) (rs : List Str) (fs : Fs)
      → All P rs
      → IsDrawn fs
      → IsDrawn (drawn b rs fs).1
  drawn-keeps b [] fs h k = k
  drawn-keeps b (r ∷ rs) fs h k = ground (arith, h.1)

  create_temp-keeps : (b : FilesystemBackend) → Keeps (create_temp b)
  unfolding create_temp syscall
  create_temp-keeps b fs h = elim (Bool-cases (first_fault fs.faults)) [
    | inl e ↦ rw e h
    | inr e ↦ rw e (drawn-keeps b fs.randoms (called fs) h h)
  ]

  copy_to-keeps : (path : Str) (source : Source) → Keeps (copy_to path source)
  unfolding copy_to syscall ◌>>=◌
  copy_to-keeps path (bytes, none) fs h = ground arith
  copy_to-keeps path (bytes, some e) fs h = ground arith

  rename-keeps : (from to : Str) → Keeps (rename from to)
  unfolding rename syscall
  rename-keeps from to fs h = ground arith

  read_file-keeps : (path : Str) → Keeps (read_file path)
  unfolding read_file syscall
  read_file-keeps path fs h = ground arith

  remove-keeps : (path : Str) → Keeps (remove path)
  unfolding remove read_file syscall ◌>>=◌
  remove-keeps path fs h = ground arith

  fill_temp-keeps : (temp final : Str) (source : Source) → Keeps (fill_temp temp final source)
  unfolding fill_temp
  fill_temp-keeps temp final source =
      bind-keeps (copy_to temp source) _ (copy_to-keeps temp source) (λ u.
        bind-keeps no_write _ no_write-keeps (λ u₁.
          bind-keeps no_write _ no_write-keeps
            (λ u₂. bind-keeps no_write _ no_write-keeps (λ u₃. rename-keeps temp final))))

  deferred-keeps :
      {A B : Type 0} (clean : Act Fs B) (m : Act Fs A)
      → Keeps clean
      → Keeps m
      → Keeps (deferred clean m)
  unfolding deferred
  deferred-keeps clean m k n fs h = k (m fs).1 (n fs h)

  put_new-keeps :
      (b : FilesystemBackend) (final : Str) (source : Source) → Keeps (put_new b final source)
  unfolding put_new
  put_new-keeps b final source = bind-keeps no_write _ no_write-keeps (λ u.
      bind-keeps (create_temp b) _ (create_temp-keeps b) (λ temp.
        bind-keeps (deferred (remove temp) (fill_temp temp final source)) _
          (deferred-keeps (remove temp) (fill_temp temp final source) (remove-keeps temp)
            (fill_temp-keeps temp final source))
          (λ u₁ fs h. h)))

  -- What holds of every text to draw before Put holds of those that are left.
  pub put-keeps : (b : FilesystemBackend) (oid : Str) (source : Source) → Keeps (put b oid source)
  unfolding put read_file syscall
  put-keeps b oid source fs h =
      ground (arith, put_new-keeps b (storage_path b oid) source (called fs) h)

-- Open changes no file, and draws nothing.
pub open_uri-files :
    (host_ok : Str → Bool) (cwd : Str) (b : FilesystemBackend) (uri : Str) (fs : Fs)
    → ((open_uri host_ok cwd b uri fs).1.files ≡ fs.files)
      × ((open_uri host_ok cwd b uri fs).1.randoms ≡ fs.randoms)
unfolding open_uri open_file read_file syscall ◌>>=◌
open_uri-files host_ok cwd b uri fs = ground arith

remove-files :
    (q path : Str) (fs : Fs)
    → ((remove q fs).1.randoms ≡ fs.randoms)
      × (((remove q fs).1.files path ≡ fs.files path)
          ⊎ ((q ≡ path) × ((remove q fs).1.files path ≡ none)))
unfolding remove read_file syscall ◌>>=◌
remove-files q path fs = (ground arith, ground arith)

removed-state :
    (host_ok : Str → Bool) (cwd : Str) (x : Result (Unit {0}) × Fs)
    → (removed host_ok cwd x).1 ≡ x.1
removed-state host_ok cwd (ok a, fs) = refl
removed-state host_ok cwd (err e, fs) = ground arith

-- Delete draws nothing, and leaves every file but the one at the path of the URI; that one it
-- removes or leaves.
pub delete-files :
    (host_ok : Str → Bool) (cwd : Str) (b : FilesystemBackend) (uri path : Str) (fs : Fs)
    → ((delete host_ok cwd b uri fs).1.randoms ≡ fs.randoms)
      × (((delete host_ok cwd b uri fs).1.files path ≡ fs.files path)
          ⊎ ((path_from_uri host_ok cwd b uri ≡ ok path)
              × ((delete host_ok cwd b uri fs).1.files path ≡ none)))
unfolding delete
delete-files host_ok cwd b uri path fs = go (path_from_uri host_ok cwd b uri)
  where
    go :
        (p : Result Str)
        → ((remove_at host_ok cwd p fs).1.randoms ≡ fs.randoms)
          × (((remove_at host_ok cwd p fs).1.files path ≡ fs.files path)
              ⊎ ((p ≡ ok path) × ((remove_at host_ok cwd p fs).1.files path ≡ none)))
    go (err e) = (refl, inl refl)
    go (ok q) =
        let same = removed-state host_ok cwd (remove q fs) in
        let (drawn_, left) = remove-files q path fs in
        (
          ap (λ s. s.randoms) same ∙ drawn_,
          elim left [
            | inl k ↦ inl (ap (λ s. s.files path) same ∙ k)
            | inr (e, gone) ↦ inr (ap ok e, ap (λ s. s.files path) same ∙ gone)
          ],
        )
