-- ===== src/Database/Catalog/Rows.antt =====
-- Searches by object id under the statements of internal/database/objects.go.
use git_lfs_server.Base.{
  ℕ, ◌≡◌, refl, ◌≢◌, Bool, false, Option, none, some, List, [], ◌∷◌, arith, inl, inr, Option-cases,
  if◌then◌else◌,
}
use git_lfs_server.Base.Int.{ℤ}
use git_lfs_server.Base.Text.{Str}
use git_lfs_server.Database.Schema.{Object, Db}
use git_lfs_server.Database.Statements.{
  find, update_where, has_oid, upsert, mark_verified, excluded, fill,
}
use git_lfs_server.Database.Invariant.{Below}
use git_lfs_server.Database.Invariant.Rows.{find-Below}

-- What an update makes of the hit of a search.
abbrev pub updated : (Object → Bool) → (Object → Object) → Option Object → Option Object
updated q f none = none
updated q f (some o) = some (if q o then f o else o)

pub find-update_where :
    (p q : Object → Bool) (f : Object → Object)
    → ((x : Object) → p (f x) ≡ p x)
    → (os : List Object) → find p (update_where q f os) ≡ updated q f (find p os)
unfolding find update_where
find-update_where p q f keeps [] = refl
find-update_where p q f keeps (x ∷ os) = ground (arith, keeps x, find-update_where p q f keeps os)

-- Two object ids whose rows have one key are the same.
pub find-id :
    (a b : Str) (x y : Object) (n : ℕ) (os : List Object)
    → Below n os
    → find (has_oid a) os ≡ some x
    → find (has_oid b) os ≡ some y
    → x.id ≡ y.id
    → a ≡ b
unfolding find
find-id a b x y n [] k h g e = cc
find-id a b x y n (o ∷ os) k h g e = ground (
  arith,
  find-id a b x y o.id os k.1,
  find-Below (has_oid a) o.id os x k.1,
  find-Below (has_oid b) o.id os y k.1,
)

-- An update that misses every row with the object id.
pub find-update_other :
    (key : Str) (q : Object → Bool) (f : Object → Object)
    → ((x : Object) → (f x).oid ≡ x.oid)
    → ((x : Object) → x.oid ≡ key → q x ≡ false)
    → (os : List Object) → find (has_oid key) (update_where q f os) ≡ find (has_oid key) os
unfolding find update_where
find-update_other key q f keeps misses [] = refl
find-update_other key q f keeps misses (x ∷ os) =
    ground (arith, keeps x, misses x, find-update_other key q f keeps misses os)

-- An upsert leaves the rows of the other object ids alone.
pub upsert-other :
    (oid : Str) (size : ℤ) (uri : Str) (db : Db) (key : Str)
    → oid ≢ key
    → find (has_oid key) (upsert oid size uri db).1.objects ≡ find (has_oid key) db.objects
unfolding upsert find
upsert-other oid size uri db key h = elim (Option-cases (find (has_oid oid) db.objects)) [
  | inl e ↦ rw e (ground arith)
  | inr (old, e) ↦ rw e (
      find-update_other key (has_oid oid) (fill (excluded oid size uri db)) (λ x. refl)
        (λ x k. ground arith) db.objects)
]

pub mark_verified-other :
    (oid : Str) (size : ℤ) (uri : Str) (db : Db) (key : Str)
    → oid ≢ key
    → find (has_oid key) (mark_verified oid size uri db).1.objects ≡ find (has_oid key) db.objects
unfolding mark_verified
mark_verified-other oid size uri db key h =
    find-update_other key _ _ (λ x. refl) (λ x k. ground arith) db.objects
