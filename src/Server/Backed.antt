-- ===== src/Server/Backed.antt =====
-- The tables and the files of a server with one filesystem backend, together: what the handlers of
-- cmd/lfsd/lfs.go keep of both.
pub mod Upload
pub mod Batch
pub mod Reads
use git_lfs_server.Base.{
  ℕ, ◌≡◌, ◌≢◌, refl, sym, ap, ◌∙◌, subst, Bool, true, false, none, some, List, [], ◌∷◌, All,
  All-map, is_some, arith, inl, inr, Bool-cases, Option-cases, is,
}
use git_lfs_server.Base.Int.{ℤ}
use git_lfs_server.Base.Text.{Str, dec_str}
use git_lfs_server.Error.{Result, ok, err}
use git_lfs_server.Database.Schema.{Db}
use git_lfs_server.Database.Invariant.{IsSound}
use git_lfs_server.Database.Objects.{link_object}
use git_lfs_server.Database.Catalog.{Catalog, put, view, store}
use git_lfs_server.Database.Catalog.Refines.{Implements, link_object-view, link_object-refines}
use git_lfs_server.Iox.Hex.{hex_encode}
use git_lfs_server.Storage.{Source}
use git_lfs_server.Storage.FilePath.Clean.{slashless}
use git_lfs_server.Storage.FilePath.Under.{IsClean}
use git_lfs_server.Storage.Filesystem.{Fs, FilesystemBackend, storage_path, uri_from_path}
use git_lfs_server.Storage.Filesystem.Uris.{IsReadable}
use git_lfs_server.Server.{World, matches_oid}

module _ (sha256 : List ℕ → List ℕ) (b : FilesystemBackend) where
  -- What stands in the file of an object hashes to the object id; and the names that os.CreateTemp
  -- draws have no slash.
  pub record IsIntact (fs : Fs) : Type 0 where
    pub hashed :
        (oid : Str) (bytes : List ℕ)
        → matches_oid oid ≡ true
        → fs.files (storage_path b oid) ≡ some bytes
        → hex_encode (sha256 bytes) ≡ oid
    pub drawn : All (λ r. slashless r ≡ true) fs.randoms

  -- An entry of the catalog is at the URI of its object's file, and the file is there.
  pub record IsFiled (oid uri : Str) (fs : Fs) : Type 0 where
    pub valid : matches_oid oid ≡ true
    pub located : uri ≡ uri_from_path b (storage_path b oid)
    pub filed : is_some (fs.files (storage_path b oid)) ≡ true

  abbrev pub AreFiled : Catalog → Fs → Type 0
  AreFiled c fs =
      (oid : Str) (size : ℤ) (uri : Str) → c.object oid ≡ some (size, uri) → IsFiled oid uri fs

  abbrev pub IsHeld : World Fs → Type 0
  IsHeld w = AreFiled (view w.db) w.store × IsIntact w.store

  put-AreFiled :
      (name key : Str) (size : ℤ) (uri : Str) (c : Catalog) (fs : Fs)
      → IsFiled key uri fs
      → AreFiled c fs
      → AreFiled (put name key (size, uri) c) fs
  unfolding put
  put-AreFiled name key size uri c fs new old oid n u h = elim (dec_str key oid) [
    | yes p ↦
        let same : uri ≡ u = ground arith in
        subst (λ k. IsFiled k u fs) p (subst (λ x. IsFiled key x fs) same new)
    | no np ↦ old oid n u (ground arith)
  ]

  -- Storing an object whose file is there, if the catalog does not have it yet.
  pub store-AreFiled :
      (repo oid : Str) (size : ℤ) (uri v : Str) (c d : Catalog) (fs : Fs)
      → store repo oid size uri c ≡ some (v, d)
      → (c.object oid ≡ none → IsFiled oid uri fs)
      → AreFiled c fs
      → AreFiled d fs × IsFiled oid v fs
  unfolding store
  store-AreFiled repo oid size uri v c d fs h new old = elim (Option-cases (c.object oid)) [
    | inl free ↦
        let same : put repo oid (size, uri) c ≡ d = ground arith in
        let named : uri ≡ v = ground arith in
        (
          subst (λ x. AreFiled x fs) same (put-AreFiled repo oid size uri c fs (new free) old),
          subst (λ x. IsFiled oid x fs) named (new free),
        )
    | inr ((old_size, old_uri), there) ↦
        let same : put repo oid (old_size, old_uri) c ≡ d = ground arith in
        let named : old_uri ≡ v = ground arith in
        let kept = old oid old_size old_uri there in
        (
          subst (λ x. AreFiled x fs) same (put-AreFiled repo oid old_size old_uri c fs kept old),
          subst (λ x. IsFiled oid x fs) named kept,
        )
  ]

  -- LinkObject for an object whose file is there, if the catalog does not have it yet.
  pub link_object-AreFiled :
      (repo oid : Str) (size : ℤ) (uri : Str) (db : Db) (fs : Fs)
      → IsSound db
      → ((view db).object oid ≡ none → IsFiled oid uri fs)
      → AreFiled (view db) fs
      → AreFiled (view (link_object repo oid size uri db).1) fs
  link_object-AreFiled repo oid size uri db fs s new old = go _ _ refl
    where
      go :
          (r : Result Str) (db' : Db)
          → link_object repo oid size uri db ≡ (r, db')
          → AreFiled (view db') fs
      go (ok v) db' h =
          (store-AreFiled repo oid size uri v (view db) (view db') fs
            (link_object-view repo oid size uri db s v db' h) new old).0
      go (err e) db' h =
          let same : view db' ≡ view db =
            subst (Implements _ (view db)) h (link_object-refines repo oid size uri db s) in
          subst (λ x. AreFiled x fs) (sym same) old

  abbrev pub SameFiles : Fs → Fs → Type 0
  SameFiles fs fs' = (fs'.files ≡ fs.files) × (fs'.randoms ≡ fs.randoms)

  -- Only the catalog, the files and the names to draw count.
  pub same-IsHeld :
      (w w' : World Fs) → view w'.db ≡ view w.db → SameFiles w.store w'.store → IsHeld w → IsHeld w'
  same-IsHeld w w' e (f, r) (filed, intact) = (
    λ oid size uri h.
        let k = filed oid size uri (ap (λ v. v.object oid) (sym e) ∙ h) in
        record {
          valid = k.valid;
          located = k.located;
          filed = ap (λ g. is_some (g (storage_path b oid))) f ∙ k.filed;
        },
    record {
      hashed =
          λ oid bytes v h. intact.hashed oid bytes v (ap (λ g. g (storage_path b oid)) (sym f) ∙ h);
      drawn = subst (λ x. All (λ q. slashless q ≡ true) x) (sym r) intact.drawn;
    },
  )
