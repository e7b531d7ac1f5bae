-- ===== src/Server.antt =====
-- cmd/lfsd/lfs.go and main.go: what the handlers share. A handler takes the parts of the request
-- that it reads and the world, which is the database and the storage, and returns the response.
pub mod Laws
pub mod History
pub mod Sound
pub mod Stored
pub mod Downloads
pub mod Refused
pub mod Serving
pub mod Brought
pub mod Delivery
pub mod Backed
pub mod Accepted
pub mod Batch
pub mod Upload
pub mod Download
pub mod Verify
use git_lfs_server.Base.{
  ℕ, zero, suc, Bool, true, false, ◌&&◌, ◌||◌, Option, none, some, List, [], ◌∷◌, ◌++◌, all, length,
  leb, ◌==◌, if◌then◌else◌,
}
use git_lfs_server.Base.Int.{ℤ, pos, ltb_ℤ}
use git_lfs_server.Base.Text.{Str, str, to_lower}
use git_lfs_server.Error.{Error, Result, ok, err}
use git_lfs_server.Database.Schema.{Db}
use git_lfs_server.Database.Exec.{Exec}
use git_lfs_server.Storage.{Headers, Backend}

-- forge.Permission; `no_permission` is the zero value.
pub data Permission : Type 0 where
  no_permission read write : Permission

-- The text of an error response. What fmt.Sprintf builds is kept by its arguments, save sizes.
pub data Message : Type 0 where
  text : Str → Message
  invalid_json : Message
  -- `invalid oid %q`
  invalid_oid : Str → Message
  -- Error() of an error
  error_text : Error → Message
  -- http.StatusText
  status_text : ℕ → Message
  -- `object size %d exceeds limit %d`
  exceeds_limit : ℤ → ℤ → Message

pub record BatchAction : Type 0 where
  pub href : Str
  pub header : Headers

pub record BatchResponseObject : Type 0 where
  pub oid : Str
  pub size : ℤ
  pub actions : List (Str × BatchAction)
  pub error : Option (ℕ × Message)

pub data Body : Type 0 where
  empty : Body
  message : Message → Body
  batch : List BatchResponseObject → Body
  content : List ℕ → Body
  -- A body that is not whole: reading it failed, or its length is not the Content-Length, so that
  -- net/http refuses bytes or closes the connection. What arrives of it is left open.
  cut_off : Body

pub record Response : Type 0 where
  pub code : ℕ
  pub headers : Headers
  pub body : Body

pub record World (S : Type 0) : Type 0 where
  pub db : Db
  pub store : S

-- The path parameters {host}, {**} and {oid}.
pub record Params : Type 0 where
  pub host : Str
  pub path : Str
  pub oid : Str

abbrev pub media_type_lfs : Str
media_type_lfs = str "application/vnd.git-lfs+json"

-- hostFromContext
unfoldable pub host_from_context : Params → Str
host_from_context c = to_lower c.host

-- repoNameFromContext
unfoldable pub repo_name_from_context : Params → Str
repo_name_from_context c = to_lower (c.host ++ b'/' ∷ c.path)

-- writeLFSError
unfoldable pub write_lfs_error : ℕ → Message → Response
write_lfs_error code msg = record {
  code = code;
  headers = (str "Content-Type", media_type_lfs) ∷ [];
  body = message msg;
}

-- WriteHeader alone
abbrev pub write_header : ℕ → Response
write_header code = record { code = code; headers = []; body = empty }

abbrev pub internal_error : Response
internal_error = write_lfs_error 500 (status_text 500)

abbrev pub is_hex_digit : ℕ → Bool
is_hex_digit c = (leb b'0' c && leb c b'9') || (leb b'a' c && leb c b'f')

-- oidPattern.MatchString
unfoldable pub matches_oid : Str → Bool
matches_oid oid = length oid == 64 && all is_hex_digit oid

-- `maxObjectSize > 0 && size > maxObjectSize`
unfoldable pub exceeds : ℤ → ℤ → Bool
exceeds limit size = ltb_ℤ (pos 0) limit && ltb_ℤ limit size

-- objectHref
unfoldable pub object_href : Str → Str → Str → Str
object_href url repo oid = url ++ b'/' ∷ (repo ++ (str "/info/lfs/objects/" ++ oid))

-- verifyHref
unfoldable pub verify_href : Str → Str → Str
verify_href url repo = url ++ b'/' ∷ (repo ++ str "/info/lfs/objects/verify")

abbrev pub may_read : Permission → Bool
may_read no_permission = false
may_read read = true
may_read write = true

abbrev pub may_write : Permission → Bool
may_write no_permission = false
may_write read = false
may_write write = true

-- A map[string]storage.Backend.
abbrev pub Storages : Type 0 → Type 0
Storages S = Str → Option (Backend S)

abbrev pub Handler : Type 0 → Type 0
Handler S = World S → Response × World S

module _ {S : Type 0} where
  abbrev pub respond : Response → Handler S
  respond r w = (r, w)

  -- A call of the database, or of the storage.
  abbrev pub in_db : {A : Type 0} → Exec A → World S → Result A × World S
  in_db m w = let (r, db) = m w.db in (r, record w { db = db })

  abbrev pub in_store : {A : Type 0} → (S → A × S) → World S → A × World S
  in_store m w = let (a, store) = m w.store in (a, record w { store = store })

  abbrev pub settle : {A : Type 0} → (Error → Response) → (A → Handler S) → Result A → Handler S
  settle fail go (ok a) w = go a w
  settle fail go (err e) w = (fail e, w)

  -- `v, err := call(); if err != nil { …; return }` and what follows it.
  unfoldable pub attempt :
      {A : Type 0}
      → (World S → Result A × World S)
      → (Error → Response)
      → (A → Handler S)
      → Handler S
  attempt m fail go w = let (r, w') = m w in settle fail go r w'

  -- A call whose error is only logged.
  abbrev pub ignoring : {A : Type 0} → (World S → A × World S) → Handler S → Handler S
  ignoring m go w = let (a, w') = m w in go w'
