-- ===== src/Server/Batch/Offers.antt =====
-- cmd/lfsd/lfs.go: what serveBatch offers for the objects that are to be uploaded.
use git_lfs_server.Base.{
  ◌≡◌, ◌⊎◌, none, some, true, List, [], ◌∷◌, ◌++◌, length, ℕ, All, is_some, if◌then◌else◌,
}
use git_lfs_server.Base.Int.{ℤ}
use git_lfs_server.Base.Text.{Str, str, is_empty}
use git_lfs_server.Database.Schema.{Db}
use git_lfs_server.Database.Catalog.{view}
use git_lfs_server.Iox.Hex.{hex_encode}
use git_lfs_server.Storage.Presign.Base64.Round.{base64_decode}
use git_lfs_server.Server.{
  Permission, exceeds, BatchResponseObject, batch, Response, World, Params, repo_name_from_context,
  Headers, Message,
}
use git_lfs_server.Server.Batch.{BatchConfig}

-- The header that hands the client's own credentials on, if it has some.
abbrev pub authorization : Str → Headers
authorization authz = if is_empty authz then [] else (str "Authorization", authz) ∷ []

module _ (config : BatchConfig) (repo authz : Str) where
  -- An upload to the object's URL, by a client that sends this checksum, and its verification.
  abbrev pub offered : Str → ℤ → Str → BatchResponseObject
  offered oid size checksum = record {
    oid = oid;
    size = size;
    actions =
        (
          str "upload",
          record {
            href = config.external_url ++ b'/' ∷ (repo ++ (str "/info/lfs/objects/" ++ oid));
            header = (str "x-amz-checksum-sha256", checksum) ∷ authorization authz;
          },
        )
        ∷ (
          str "verify",
          record {
            href = config.external_url ++ b'/' ∷ (repo ++ str "/info/lfs/objects/verify");
            header = authorization authz;
          },
        )
        ∷ [];
    error = none;
  }

  -- The checksum is the Base64, by an independent decoder, of 32 bytes whose digits are the object
  -- id.
  pub record IsOffer (oid : Str) (size : ℤ) (r : BatchResponseObject) : Type 0 where
    pub sum : List ℕ
    pub checksum : Str
    pub long : length sum ≡ 32
    pub digits : hex_encode sum ≡ oid
    pub decoded : base64_decode checksum ≡ some sum
    pub answered : r ≡ offered oid size checksum

  -- The object is too large, and reported as such; or the catalog has it; or it is offered.
  abbrev pub IsDecided : Db → BatchResponseObject → Type 0
  IsDecided db r =
      ((exceeds config.max_object_size r.size ≡ true)
        × ((msg : Message) × (r.error ≡ some (413, msg))))
      ⊎ ((is_some ((view db).object r.oid) ≡ true) ⊎ IsOffer r.oid r.size r)

module _ {S : Type 0} (config : BatchConfig) (c : Params) (perm : Permission) (authz : Str) where
  abbrev DecidesAll : World S → Response × World S → Type 0
  DecidesAll w x =
      (out : List BatchResponseObject)
      → x.0.body ≡ batch out
      → All (IsDecided config (repo_name_from_context c) authz w.db) out
