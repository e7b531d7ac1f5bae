-- ===== src/Storage/Filesystem/Files.antt =====
-- What the steps of Put do to one file.
use git_lfs_server.Base.{ℕ, ◌≡◌, ◌≢◌, ◌⊎◌, inl, ap, ◌∙◌, Option, none, some, List, arith}
use git_lfs_server.Base.Text.{Str}
use git_lfs_server.Error.{Error, Result, ok, err}
use git_lfs_server.Effect.{◌>>=◌, ◌>>◌}
use git_lfs_server.Effect.Laws.{bind_post, >>=-ok}
use git_lfs_server.Storage.{Source}
use git_lfs_server.Storage.Filesystem.{
  Fs, syscall, read_file, remove, no_write, rename, copy_to, fill_temp,
}

-- Between two states a file was left alone, or is the object that was stored.
abbrev pub IsWhole : Str → Source → Str → Fs → Fs → Type 0
IsWhole final source path fs fs' =
    (fs'.files path ≡ fs.files path)
    ⊎ ((path ≡ final) × (fs'.files path ≡ some source.0) × (source.1 ≡ none))

pub no_write-files :
    (fs fs' : Fs) (r : Result (Unit {0})) → no_write fs ≡ (r, fs') → fs'.files ≡ fs.files
unfolding no_write syscall
no_write-files fs fs' r h = ground arith

copy_to-temp :
    (temp : Str) (bytes : List ℕ) (e : Option Error) (fs fs' : Fs) (u : Unit {0})
    → copy_to temp (bytes, e) fs ≡ (ok u, fs')
    → (e ≡ none) × (fs'.files temp ≡ some bytes)
unfolding copy_to syscall ◌>>=◌
copy_to-temp temp bytes none fs fs' u h = ground arith
copy_to-temp temp bytes (some x) fs fs' u h = ground arith

module _ (temp path : Str) (other_file : path ≢ temp) where
  copy_to-path :
      (bytes : List ℕ) (e : Option Error) (fs fs' : Fs) (r : Result (Unit {0}))
      → copy_to temp (bytes, e) fs ≡ (r, fs')
      → fs'.files path ≡ fs.files path
  unfolding copy_to syscall ◌>>=◌
  copy_to-path bytes none fs fs' r h = ground arith
  copy_to-path bytes (some x) fs fs' r h = ground arith

  rename-path :
      (final : Str) (bytes : List ℕ) (fs : Fs)
      → fs.files temp ≡ some bytes
      → IsWhole final (bytes, none) path fs (rename temp final fs).1
  unfolding rename syscall
  rename-path final bytes fs h = ground arith

  pub remove-path : (fs : Fs) → (remove temp fs).1.files path ≡ fs.files path
  unfolding remove read_file syscall ◌>>=◌
  remove-path fs = ground arith

  IsWhole-same :
      (final : Str) (source : Source) (a b c : Fs)
      → b.files path ≡ a.files path
      → IsWhole final source path b c
      → IsWhole final source path a c
  IsWhole-same final source a b c e w = ground arith

  abbrev quiet : Str → Fs → Fs
  quiet final fs = ((do no_write; no_write; no_write; rename temp final) fs).1

  -- Sync, Close, MkdirAll and Rename.
  quiet_rename :
      (final : Str) (bytes : List ℕ) (fs : Fs)
      → fs.files temp ≡ some bytes
      → IsWhole final (bytes, none) path fs (quiet final fs)
  quiet_rename final bytes fs h =
      bind_post Q no_write _ fs (λ e s₁ k. inl (ap (λ g. g path) (no_write-files fs s₁ _ k)))
        λ u s₁ k₁.
          bind_post Q no_write _ s₁
            (λ e s₂ k.
              inl (ap (λ g. g path) (no_write-files s₁ s₂ _ k ∙ no_write-files fs s₁ _ k₁)))
            λ v s₂ k₂.
              bind_post Q no_write _ s₂
                (λ e s₃ k. inl (
                  ap (λ g. g path)
                    (no_write-files s₂ s₃ _ k
                      ∙ no_write-files s₁ s₂ _ k₂
                      ∙ no_write-files fs s₁ _ k₁)))
                λ w s₃ k₃.
                  let same =
                    no_write-files s₂ s₃ _ k₃
                    ∙ no_write-files s₁ s₂ _ k₂
                    ∙ no_write-files fs s₁ _ k₁ in
                  IsWhole-same final (bytes, none) fs s₃ (rename temp final s₃).1
                    (ap (λ g. g path) same) (rename-path final bytes s₃ (ap (λ g. g temp) same ∙ h))
    where
      Q : Result (Unit {0}) × Fs → Type 0
      Q x = IsWhole final (bytes, none) path fs x.1

  pub fill_temp-IsWhole :
      (final : Str) (bytes : List ℕ) (e : Option Error) (fs : Fs)
      → IsWhole final (bytes, e) path fs (fill_temp temp final (bytes, e) fs).1
  unfolding fill_temp
  fill_temp-IsWhole final bytes e fs =
      bind_post (λ x. IsWhole final (bytes, e) path fs x.1) (copy_to temp (bytes, e)) _ fs
        (λ x s₁ h. inl (copy_to-path bytes e fs s₁ (err x) h))
        (λ u s₁ h.
          let (fine, there) = copy_to-temp temp bytes e fs s₁ u h in
          IsWhole-same final (bytes, e) fs s₁ (quiet final s₁) (copy_to-path bytes e fs s₁ (ok u) h)
            (rw fine (quiet_rename final bytes s₁ there)))

rename-final :
    (temp final : Str) (bytes : List ℕ) (fs fs' : Fs) (u : Unit {0})
    → final ≢ temp
    → fs.files temp ≡ some bytes
    → rename temp final fs ≡ (ok u, fs')
    → fs'.files final ≡ some bytes
unfolding rename syscall
rename-final temp final bytes fs fs' u ne there h = ground arith

-- The file that was filled and renamed holds the bytes of the source.
pub fill_temp-ok :
    (temp final : Str) (bytes : List ℕ) (e : Option Error) (fs fs' : Fs) (u : Unit {0})
    → final ≢ temp
    → fill_temp temp final (bytes, e) fs ≡ (ok u, fs')
    → (e ≡ none) × (fs'.files final ≡ some bytes)
unfolding fill_temp
fill_temp-ok temp final bytes e fs fs' u ne h =
    let (u₁, s₁, k₁, h₁) = >>=-ok (copy_to temp (bytes, e)) _ fs fs' u h in
    let (u₂, s₂, k₂, h₂) = >>=-ok no_write _ s₁ fs' u h₁ in
    let (u₃, s₃, k₃, h₃) = >>=-ok no_write _ s₂ fs' u h₂ in
    let (u₄, s₄, k₄, h₄) = >>=-ok no_write _ s₃ fs' u h₃ in
    let (fine, there) = copy_to-temp temp bytes e fs s₁ u₁ k₁ in
    let same = no_write-files s₃ s₄ _ k₄ ∙ no_write-files s₂ s₃ _ k₃ ∙ no_write-files s₁ s₂ _ k₂ in
    (fine, rename-final temp final bytes s₄ fs' u ne (ap (λ g. g temp) same ∙ there) h₄)
