-- ===== src/Tests/Deliveries.antt =====
-- An upload to the filesystem backend and a download, and the backend's paths and URIs, at a
-- concrete backend.
use git_lfs_server.Base.{
  ℕ, ◌≡◌, ◌≢◌, ◌++◌, refl, none, some, List, [], ◌∷◌, true, false, arith, All, Option,
}
use git_lfs_server.Base.Int.{pos}
use git_lfs_server.Base.Text.{Str, str}
use git_lfs_server.Error.{ok}
use git_lfs_server.Database.Catalog.{view}
use git_lfs_server.Database.Catalog.History.{History, once, passes}
use git_lfs_server.Iox.Verdict.{delivered, final}
use git_lfs_server.Iox.Accepts.{IsAnnounced}
use git_lfs_server.Storage.FilePath.{render}
use git_lfs_server.Storage.FilePath.Clean.{ArePlain, slashless}
use git_lfs_server.Storage.FilePath.Under.{IsClean}
use git_lfs_server.Storage.Filesystem.{Fs, storage_path, uri_from_path, path_from_uri}
use git_lfs_server.Storage.Filesystem.Uris.{
  IsReadable, path_from_uri-IsBelow, path_from_uri-uri_from_path,
}
use git_lfs_server.Server.{World, content, read, write}
use git_lfs_server.Server.Upload.{serve_upload}
use git_lfs_server.Server.Download.{serve_download, with_length}
use git_lfs_server.Server.Brought.{IsNew}
use git_lfs_server.Server.Delivery.{upload-download}
use git_lfs_server.Tests.{
  digest, oid, body, params, backend, files, host_ok, storages, db, world, db-IsSound,
}
use git_lfs_server.Tests.Tables.{valid}
use git_lfs_server.Tests.Uploads.{uploaded_code}

root-IsClean : IsClean backend.root
unfolding render str git_lfs_server.Base.Text.dec_str git_lfs_server.Base.ℕ_discrete
root-IsClean = record { elements = (b'r' ∷ []) ∷ []; are_plain = (refl, tt); rendered = refl }

pub temp-IsClean : IsClean backend.temp_dir
unfolding render str git_lfs_server.Base.Text.dec_str git_lfs_server.Base.ℕ_discrete
temp-IsClean = record { elements = (b't' ∷ []) ∷ []; are_plain = (refl, tt); rendered = refl }

pub backend-IsReadable : IsReadable backend
unfolding str git_lfs_server.Base.Text.to_lower git_lfs_server.Base.Text.lower
    git_lfs_server.Storage.Url.is_letter git_lfs_server.Storage.Url.is_scheme_tail
backend-IsReadable = record {
  tidy = root-IsClean;
  below = λ e. cc;
  root_safe = refl;
  word = b'f' ∷ b's' ∷ [];
  is_scheme = (refl, refl, refl);
  scheme_is = refl;
}

path_from_uri-uri_from_path_example :
    path_from_uri host_ok [] backend (uri_from_path backend (storage_path backend oid))
    ≡ ok (storage_path backend oid)
path_from_uri-uri_from_path_example =
    path_from_uri-uri_from_path host_ok [] backend backend-IsReadable oid valid refl

read_back :
    path_from_uri host_ok [] backend (uri_from_path backend (storage_path backend oid))
    ≡ ok (storage_path backend oid)
read_back = path_from_uri-uri_from_path host_ok [] backend backend-IsReadable oid valid refl

path_from_uri-IsBelow_example :
    (below : List Str) × ArePlain below
    × (storage_path backend oid ≡ render (root-IsClean.elements ++ below))
path_from_uri-IsBelow_example =
    path_from_uri-IsBelow host_ok [] backend root-IsClean
      (uri_from_path backend (storage_path backend oid)) (storage_path backend oid) read_back

pub drawn : All (λ r. slashless r ≡ true) files.randoms
unfolding str
drawn = (refl, tt)

absent : (view db).object oid ≡ none
unfolding view git_lfs_server.Database.Statements.find
absent = refl

world-IsNew : IsNew host_ok [] digest params body backend backend-IsReadable world
world-IsNew = record {
  sound = db-IsSound;
  absent = absent;
  unfiled = refl;
  temp = temp-IsClean;
  randoms = drawn;
}

abbrev pub uploaded : World Fs
uploaded = (serve_upload digest params body storages (pos 0) write (pos 3) world).1

-- Some time later, and no fault is to come.
abbrev afterwards : World Fs
afterwards = record {
  db = record uploaded.db { now = 9; faults = [] };
  store = record uploaded.store { faults = [] };
}

abbrev NoneStored : Str → Type 0
NoneStored r = ⊥

afterwards-History : History NoneStored uploaded.db afterwards.db
afterwards-History = once (passes 9 [] uploaded.db)

upload-download_example :
    IsAnnounced digest (pos 3) oid (delivered body) (final body)
    × ((serve_download params storages read afterwards).0
        ≡ with_length (pos 3) (content (delivered body)))
upload-download_example =
    upload-download host_ok [] digest params body backend backend-IsReadable storages (pos 0) write
      read 3 world afterwards refl refl (omega arith) world-IsNew uploaded_code afterwards-History
      refl refl refl refl refl
