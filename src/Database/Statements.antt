-- ===== src/Database/Statements.antt =====
-- The SQL statements of internal/database/objects.go, as functions on the tables.
use git_lfs_server.Base.{
  ℕ, suc, ◌+◌, Bool, true, false, ◌&&◌, not, Option, none, some, List, [], ◌∷◌, ◌==◌, ltb, leb, is,
  is_some, filter, count, take, if◌then◌else◌,
}
use git_lfs_server.Base.Int.{ℤ}
use git_lfs_server.Base.Text.{Str, dec_str}
use git_lfs_server.Database.Schema.{Object, zero_object, RepoObject, Db}

module _ {A : Type 0} where
  unfoldable pub find : (A → Bool) → List A → Option A
  find p [] = none
  find p (x ∷ xs) = if p x then some x else find p xs

  -- UPDATE … SET … WHERE
  unfoldable pub update_where : (A → Bool) → (A → A) → List A → List A
  update_where p f [] = []
  update_where p f (x ∷ xs) = (if p x then f x else x) ∷ update_where p f xs

abbrev pub has_oid : Str → Object → Bool
has_oid oid o = is (dec_str o.oid oid)

abbrev pub has_id : ℕ → Object → Bool
has_id id o = o.id == id

abbrev pub of_object : ℕ → RepoObject → Bool
of_object id l = l.object_id == id

abbrev pub of_link : Str → ℕ → RepoObject → Bool
of_link repo id l = is (dec_str l.repo_name repo) && l.object_id == id

-- Scan into one struct takes the first row, and leaves the zero value if there is none.
abbrev pub scan : Option Object → Object
scan none = zero_object
scan (some o) = o

abbrev pub coalesce {ℓ} : {A : Type ℓ} → Option A → Option A → Option A
coalesce none b = b
coalesce (some a) b = some a

-- SELECT * FROM objects WHERE oid = @oid LIMIT 1
unfoldable pub select_by_oid : Str → Db → Object
select_by_oid oid db = scan (find (has_oid oid) db.objects)

-- the JOIN … ON repo_objects.object_id = objects.id with repo_name = @repoName
unfoldable pub is_linked : Str → ℕ → List RepoObject → Bool
is_linked repo id links = is_some (find (of_link repo id) links)

abbrev pub in_repo : Str → List RepoObject → Object → Bool
in_repo repo links o = is_linked repo o.id links && is_some o.verified_at

-- The row of GetRepoObjectByOID.
unfoldable pub select_repo_object : Str → Str → Db → Object
select_repo_object repo oid db =
    scan (find (λ o. has_oid oid o && in_repo repo db.repo_objects o) db.objects)

abbrev pub any_oid : List Str → Object → Bool
any_oid [] o = false
any_oid (oid ∷ oids) o = if has_oid oid o then true else any_oid oids o

-- The rows of GetObjectsByOIDs.
unfoldable pub select_verified : List Str → Db → List Object
select_verified oids db = filter (λ o. any_oid oids o && is_some o.verified_at) db.objects

-- The rows of GetRepoObjectsByOIDs.
unfoldable pub select_repo_objects : Str → List Str → Db → List Object
select_repo_objects repo oids db =
    filter (λ o. any_oid oids o && in_repo repo db.repo_objects o) db.objects

-- What LinkObject inserts, and what EXCLUDED stands for.
abbrev pub excluded : Str → ℤ → Str → Db → Object
excluded oid size uri db = record {
  id = db.next_object_id;
  oid = oid;
  size = some size;
  object_uri = some uri;
  repo_count = 0;
  created_at = db.now;
  verified_at = some db.now;
}

abbrev pub fill : Object → Object → Object
fill new old = record old {
  size = coalesce old.size new.size;
  object_uri = coalesce old.object_uri new.object_uri;
  verified_at = coalesce old.verified_at new.verified_at;
}

abbrev pub upsert_into : Object → Option Object → Db → Object × Db
upsert_into new none db =
    (new, record db { objects = new ∷ db.objects; next_object_id = suc db.next_object_id })
upsert_into new (some old) db =
    (fill new old, record db { objects = update_where (has_oid new.oid) (fill new) db.objects })

-- INSERT INTO objects … ON CONFLICT (oid) DO UPDATE SET … COALESCE … RETURNING *
unfoldable pub upsert : Str → ℤ → Str → Db → Object × Db
upsert oid size uri db = upsert_into (excluded oid size uri db) (find (has_oid oid) db.objects) db

abbrev pub insert_link_unless : Bool → Str → ℕ → Db → ℕ × Db
insert_link_unless true repo id db = (0, db)
insert_link_unless false repo id db = (
  1,
  record db {
    repo_objects =
        record { id = db.next_link_id; repo_name = repo; object_id = id; created_at = db.now }
        ∷ db.repo_objects;
    next_link_id = suc db.next_link_id;
  },
)

-- INSERT INTO repo_objects … ON CONFLICT (repo_name, object_id) DO NOTHING, with RowsAffected
unfoldable pub insert_link : Str → ℕ → Db → ℕ × Db
insert_link repo id db = insert_link_unless (is_linked repo id db.repo_objects) repo id db

-- UPDATE objects SET repo_count = (SELECT COUNT(*) …) WHERE id = @id
unfoldable pub recount : ℕ → Db → Unit {0} × Db
recount id db = (
  tt,
  record db {
    objects =
        update_where (has_id id)
          (λ o. record o { repo_count = count (of_object id) db.repo_objects }) db.objects;
  },
)

abbrev pub insert_pending_unless : Option Object → Str → Db → Unit {0} × Db
insert_pending_unless (some old) oid db = (tt, db)
insert_pending_unless none oid db = (
  tt,
  record db {
    objects =
        record zero_object { id = db.next_object_id; oid = oid; created_at = db.now } ∷ db.objects;
    next_object_id = suc db.next_object_id;
  },
)

-- INSERT INTO objects (oid, repo_count, created_at) … ON CONFLICT (oid) DO NOTHING
unfoldable pub insert_pending : Str → Db → Unit {0} × Db
insert_pending oid db = insert_pending_unless (find (has_oid oid) db.objects) oid db

-- UPDATE objects SET size, object_uri, verified_at = now() WHERE oid = @oid AND verified_at IS NULL
unfoldable pub mark_verified : Str → ℤ → Str → Db → Unit {0} × Db
mark_verified oid size uri db = (
  tt,
  record db {
    objects =
        update_where (λ o. has_oid oid o && not (is_some o.verified_at))
          (λ o. record o { size = some size; object_uri = some uri; verified_at = some db.now })
          db.objects;
  },
)

module _ (key : Object → ℕ) where
  unfoldable pub insert_sorted : Object → List Object → List Object
  insert_sorted x [] = x ∷ []
  insert_sorted x (y ∷ ys) =
      let later = insert_sorted x ys in if leb (key x) (key y) then x ∷ y ∷ ys else y ∷ later

  -- ORDER BY: rows with one key come in the order of the table
  unfoldable pub order_by : List Object → List Object
  order_by [] = []
  order_by (x ∷ xs) = insert_sorted x (order_by xs)

-- The row of a time column, where the statement has asked for one that is not null.
abbrev pub time_or_zero : Option ℕ → ℕ
time_or_zero none = 0
time_or_zero (some t) = t

abbrev pub is_orphan : ℕ → ℕ → Object → Bool
is_orphan age now o = not (is_some o.verified_at) && ltb (o.created_at + age) now

abbrev pub is_unreferenced : Object → Bool
is_unreferenced o = is_some o.verified_at && o.repo_count == 0

-- SELECT … ORDER BY created_at LIMIT @limit FOR UPDATE SKIP LOCKED; `locked` tells the rows that
-- another transaction holds.
unfoldable pub select_orphans : (Object → Bool) → ℕ → ℕ → Db → List Object
select_orphans locked age limit db = take limit (
    order_by (λ o. o.created_at)
      (filter (λ o. is_orphan age db.now o && not (locked o)) db.objects))

unfoldable pub select_unreferenced : (Object → Bool) → ℕ → Db → List Object
select_unreferenced locked limit db = take limit (
    order_by (λ o. time_or_zero o.verified_at)
      (filter (λ o. is_unreferenced o && not (locked o)) db.objects))

abbrev pub any_id : List ℕ → Object → Bool
any_id [] o = false
any_id (id ∷ ids) o = if has_id id o then true else any_id ids o

-- DELETE FROM objects WHERE id = ANY(@ids)
unfoldable pub delete_ids : List ℕ → Db → Unit {0} × Db
delete_ids ids db = (tt, record db { objects = filter (λ o. not (any_id ids o)) db.objects })
