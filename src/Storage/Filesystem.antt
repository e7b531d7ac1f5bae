-- ===== src/Storage/Filesystem.antt =====
-- internal/storage/filesystem.go, on Unix. `files` is the content of each regular file. A system
-- call may fail by a fault, and then changes nothing. Directories are not modelled: making one
-- changes no file.
pub mod Paths
pub mod Uris
pub mod Files
pub mod Put
pub mod Draws
use git_lfs_server.Base.{
  ℕ, zero, suc, Bool, true, false, ◌&&◌, ◌||◌, not, Option, none, some, List, [], ◌∷◌, ◌++◌, ltb,
  is, length, take, is_some, if◌then◌else◌,
}
use git_lfs_server.Base.Text.{Str, dec_str, str, has_prefix, trim_suffix, is_empty}
use git_lfs_server.Error.{Error, Result, ok, err, other, storage_not_found}
use git_lfs_server.Effect.{Act, pure, raise, ◌>>=◌, ◌>>◌, deferred}
use git_lfs_server.Storage.{Source, Base, Proxier}
use git_lfs_server.Storage.Url.{url_parse}
use git_lfs_server.Storage.FilePath.{slash, abs, clean}

pub record Fs : Type 0 where
  pub files : Str → Option (List ℕ)
  -- the random texts that os.CreateTemp will draw
  pub randoms : List Str
  pub faults : List Bool

pub record FilesystemBackend : Type 0 where
  pub name : Str
  pub scheme : Str
  pub root : Str
  pub temp_dir : Str

-- NewFilesystemBackend, in the working directory `cwd`
unfoldable pub new_filesystem_backend : Str → Str → Str → Str → Str → Result FilesystemBackend
new_filesystem_backend cwd name scheme root temp_dir =
    if is_empty root
    then err (other "ROOT is required")
    else if is_empty temp_dir
    then err (other "TEMP_DIR is required")
    else ok
        (record { name = name; scheme = scheme; root = abs cwd root; temp_dir = abs cwd temp_dir })

abbrev pub drop : ℕ → Str → Str
drop zero s = s
drop (suc n) [] = []
drop (suc n) (c ∷ s) = drop n s

-- filepath.Join(b.root, oid[0:2], oid[2:4], oid)
unfoldable pub storage_path : FilesystemBackend → Str → Str
storage_path b oid =
    clean (b.root ++ slash ∷ (take 2 oid ++ slash ∷ (take 2 (drop 2 oid) ++ slash ∷ oid)))

-- filepath.ToSlash changes nothing on Unix.
unfoldable pub uri_from_path : FilesystemBackend → Str → Str
uri_from_path b path =
    if has_prefix path (slash ∷ []) then b.scheme ++ path else b.scheme ++ slash ∷ path

abbrev pub first_fault : List Bool → Bool
first_fault [] = false
first_fault (b ∷ bs) = b

abbrev pub later_faults : List Bool → List Bool
later_faults [] = []
later_faults (b ∷ bs) = bs

abbrev pub called : Fs → Fs
called fs = record fs { faults = later_faults fs.faults }

unfoldable pub syscall : {A : Type 0} → Act Fs A → Act Fs A
syscall m fs =
    if first_fault fs.faults then (err (other "system call failed"), called fs) else m (called fs)

abbrev pub update : (Str → Option (List ℕ)) → Str → Option (List ℕ) → Str → Option (List ℕ)
update files path v q = if is (dec_str q path) then v else files q

abbrev pub is_ok : {A : Type 0} → Result A → Bool
is_ok (ok a) = true
is_ok (err e) = false

abbrev pub file : Str → Option (List ℕ) → Act Fs (List ℕ)
file path none = raise storage_not_found
file path (some bytes) = pure bytes

-- os.Stat and os.Open, with the file's content: ErrNotFound stands for fs.ErrNotExist
unfoldable pub read_file : Str → Act Fs (List ℕ)
read_file path = syscall (λ fs. file path (fs.files path) fs)

-- A file that is open, read to its end: where a read fails, the reader has an error.
abbrev pub reading : List ℕ → Act Fs Source
reading bytes fs = (
  ok (if first_fault fs.faults then ([], some (other "read failed")) else (bytes, none)),
  called fs,
)

-- os.Open and the reader
unfoldable pub open_file : Str → Act Fs Source
open_file path = do bytes ← read_file path; reading bytes

abbrev pub write_file : Str → Option (List ℕ) → Act Fs (Unit {0})
write_file path v = syscall (λ fs. (ok tt, record fs { files = update fs.files path v }))

-- os.Remove
unfoldable pub remove : Str → Act Fs (Unit {0})
remove path = do read_file path; write_file path none

-- os.MkdirAll, Sync and Close
unfoldable pub no_write : Act Fs (Unit {0})
no_write = syscall (pure tt)

abbrev pub temp_path : FilesystemBackend → Str → Str
temp_path b random = clean (b.temp_dir ++ slash ∷ (str "upload-" ++ random))

abbrev pub drawn : FilesystemBackend → List Str → Act Fs Str
drawn b [] fs = (err (other "create temp file"), fs)
drawn b (r ∷ rs) fs =
    if is_some (fs.files (temp_path b r))
    then (err (other "create temp file"), record fs { randoms = rs })
    else (
      ok (temp_path b r),
      record fs { randoms = rs; files = update fs.files (temp_path b r) (some []) },
    )

-- os.CreateTemp(b.tempDir, "upload-*"): it makes an empty file, and no file that is there
unfoldable pub create_temp : FilesystemBackend → Act Fs Str
create_temp b = syscall (λ fs. drawn b fs.randoms fs)

-- os.Rename
unfoldable pub rename : Str → Str → Act Fs (Unit {0})
rename from to =
    syscall
      (λ fs. (ok tt, record fs { files = update (update fs.files to (fs.files from)) from none }))

abbrev pub copy_error : Option Error → Act Fs (Unit {0})
copy_error none = pure tt
copy_error (some e) = raise e

-- io.Copy(tmp, r)
unfoldable pub copy_to : Str → Source → Act Fs (Unit {0})
copy_to path (bytes, e) = do write_file path (some bytes); copy_error e

-- Put past os.CreateTemp, without the deferred os.Remove
unfoldable pub fill_temp : Str → Str → Source → Act Fs (Unit {0})
fill_temp temp final source = do
  copy_to temp source
  no_write
  no_write
  no_write
  rename temp final

unfoldable pub put_new : FilesystemBackend → Str → Source → Act Fs Str
put_new b final source = do
  no_write
  temp ← create_temp b
  deferred (remove temp) (fill_temp temp final source)
  pure (uri_from_path b final)

-- Put
unfoldable pub put : FilesystemBackend → Str → Source → Act Fs Str
put b oid source fs =
    if ltb (length oid) 4
    then (err (other "invalid oid"), fs)
    else (let (there, after) = read_file (storage_path b oid) fs in
        if is_ok there
        then (ok (uri_from_path b (storage_path b oid)), after)
        else put_new b (storage_path b oid) source after)

module _ (host_ok : Str → Bool) (cwd : Str) where
  -- pathFromURI, past url.Parse
  abbrev pub inside : FilesystemBackend → Option (Str × Str) → Result Str
  inside b none = err (other "parse storage uri")
  inside b (some (scheme, path)) =
      if is (dec_str scheme (trim_suffix b.scheme (str "://")))
      then (if has_prefix (abs cwd path) (b.root ++ slash ∷ [])
            || is (dec_str (abs cwd path) b.root)
          then ok (abs cwd path)
          else err (other "uri path escapes root"))
      else err (other "unsupported scheme")

  -- pathFromURI
  unfoldable pub path_from_uri : FilesystemBackend → Str → Result Str
  path_from_uri b uri = inside b (url_parse host_ok uri)

  abbrev pub at_path : {A : Type 0} → Result Str → (Str → Act Fs A) → Act Fs A
  at_path (ok path) f = f path
  at_path (err e) f = raise e

  -- Open, with what reading the file to its end gives
  unfoldable pub open_uri : FilesystemBackend → Str → Act Fs Source
  open_uri b uri = at_path (path_from_uri b uri) open_file

  -- `err != nil && !os.IsNotExist(err)`
  abbrev pub removed : Result (Unit {0}) × Fs → Option Error × Fs
  removed (ok a, fs) = (none, fs)
  removed (err storage_not_found, fs) = (none, fs)
  removed (err e, fs) = (some e, fs)

  abbrev pub remove_at : Result Str → Fs → Option Error × Fs
  remove_at (ok path) fs = removed (remove path fs)
  remove_at (err e) fs = (some e, fs)

  -- Delete
  unfoldable pub delete : FilesystemBackend → Str → Fs → Option Error × Fs
  delete b uri fs = remove_at (path_from_uri b uri) fs

  -- *FilesystemBackend is a Proxier.
  unfoldable pub filesystem_proxier : FilesystemBackend → Proxier Fs
  filesystem_proxier b = record {
    base = record { name = b.name; kind = str "filesystem"; scheme = b.scheme; delete = delete b };
    put = put b;
    open_uri = open_uri b;
  }
