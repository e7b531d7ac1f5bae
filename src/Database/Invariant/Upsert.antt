-- ===== src/Database/Invariant/Upsert.antt =====
-- The first steps of LinkObject and VerifyObject: the row that the object id ends up with.
use git_lfs_server.Base.{
  suc, ◌≡◌, refl, sym, ◌∙◌, ◌≢◌, Bool, true, some, List, [], ◌∷◌, all, All, is_some, arith,
  if◌then◌else◌, inl, inr, Option-cases,
}
use git_lfs_server.Base.Int.{ℤ}
use git_lfs_server.Base.Text.{Str}
use git_lfs_server.Error.{ok}
use git_lfs_server.Database.Schema.{Object, RepoObject, Db, consistent}
use git_lfs_server.Database.Statements.{
  find, update_where, has_oid, excluded, fill, upsert, mark_verified,
}
use git_lfs_server.Database.Objects.{deref, stored_uri}
use git_lfs_server.Database.Invariant.{holds_verified, LinksHold, IsSound}
use git_lfs_server.Database.Invariant.Rows.{
  holds_verified_above, count_above, update-Below, update-LinksHold, update-DistinctOids,
  update-Counted, find-eq-none, find-oid,
}

-- An update that no search for `p` can see leaves its hit in place, updated if it qualifies.
pub find-update :
    (p q : Object → Bool) (f : Object → Object) (os : List Object) (o : Object)
    → ((x : Object) → p (f x) ≡ p x)
    → find p os ≡ some o
    → find p (update_where q f os) ≡ some (if q o then f o else o)
unfolding find update_where
find-update p q f [] o keeps h = cc
find-update p q f (x ∷ os) o keeps h = ground (arith, keeps x, find-update p q f os o keeps)

-- The row that a search for the object id finds is the one that the statement returned.
pub upsert-find :
    (oid : Str) (size : ℤ) (uri : Str) (db mid : Db) (o : Object)
    → upsert oid size uri db ≡ (o, mid)
    → find (has_oid oid) mid.objects ≡ some o
unfolding upsert find
upsert-find oid size uri db mid o h = elim (Option-cases (find (has_oid oid) db.objects)) [
  | inl e ↦ ground arith
  | inr (old, e) ↦ ground (
    arith,
    find-update (has_oid oid) (has_oid oid) (fill (excluded oid size uri db)) db.objects old
        (λ x. refl),
    find-oid oid db.objects old e,
  )
]

LinksHold-cons :
    (o : Object) (os : List Object) (ls : List RepoObject) → LinksHold os ls → LinksHold (o ∷ os) ls
unfolding holds_verified
LinksHold-cons o os [] h = tt
LinksHold-cons o os (l ∷ ls) h = (ground arith, LinksHold-cons o os ls h.1)

-- A new row that no link leads to yet.
pub inserted-IsSound :
    (o : Object) (db : Db)
    → o.id ≡ db.next_object_id
    → o.repo_count ≡ 0
    → All (λ q. q.oid ≢ o.oid) db.objects
    → all consistent (o ∷ db.objects) ≡ true
    → IsSound db
    → IsSound (record db { objects = o ∷ db.objects; next_object_id = suc db.next_object_id })
inserted-IsSound o db key zero_count new fits s = record {
  positive = omega (arith, s.positive);
  ids = ((rw key s.positive, omega arith), rw key s.ids);
  oids = (new, s.oids);
  check = fits;
  links = s.links;
  held = LinksHold-cons o db.objects db.repo_objects s.held;
  counted = (
    zero_count
        ∙ sym (
            count_above o.id db.objects db.repo_objects
              (holds_verified_above o.id db.next_object_id db.objects s.ids (omega arith)) s.held),
    s.counted,
  );
}

-- An update of columns that neither a key, nor a link, nor the count of links depends on.
pub updated-IsSound :
    (p : Object → Bool) (f : Object → Object) (db : Db)
    → ((o : Object) → (f o).id ≡ o.id)
    → ((o : Object) → (f o).oid ≡ o.oid)
    → ((o : Object) → (f o).repo_count ≡ o.repo_count)
    → ((o : Object) → is_some o.verified_at ≡ true → is_some (f o).verified_at ≡ true)
    → all consistent (update_where p f db.objects) ≡ true
    → IsSound db
    → IsSound (record db { objects = update_where p f db.objects })
updated-IsSound p f db id oid repo_count verified fits s = record {
  positive = s.positive;
  ids = update-Below p f id db.next_object_id db.objects s.ids;
  oids = update-DistinctOids p f oid db.objects s.oids;
  check = fits;
  links = s.links;
  held = update-LinksHold p f id verified db.objects db.repo_objects s.held;
  counted = update-Counted p f id repo_count db.repo_objects db.objects s.counted;
}

pub upsert-IsSound :
    (oid : Str) (size : ℤ) (uri : Str) (db mid : Db) (o : Object)
    → upsert oid size uri db ≡ (o, mid)
    → all consistent mid.objects ≡ true
    → IsSound db
    → IsSound mid
unfolding upsert
upsert-IsSound oid size uri db mid o h fits s =
    elim (Option-cases (find (has_oid oid) db.objects)) [
      | inl e ↦
          let same : record db {
            objects = excluded oid size uri db ∷ db.objects;
            next_object_id = suc db.next_object_id;
          }
              ≡ mid =
            ground arith in
          rw same at (
            inserted-IsSound (excluded oid size uri db) db refl refl (find-eq-none oid db.objects e)
              (rw (← same) at fits) s)
      | inr (old, e) ↦
          let same : record db {
            objects = update_where (has_oid oid) (fill (excluded oid size uri db)) db.objects;
          }
              ≡ mid =
            ground arith in
          rw same at (
            updated-IsSound (has_oid oid) (fill (excluded oid size uri db)) db (λ o. refl)
              (λ o. refl) (λ o. refl) (λ o v. ground arith) (rw (← same) at fits) s)
    ]

pub mark_verified-IsSound :
    (oid : Str) (size : ℤ) (uri : Str) (db : Db)
    → all consistent (mark_verified oid size uri db).1.objects ≡ true
    → IsSound db
    → IsSound (mark_verified oid size uri db).1
unfolding mark_verified
mark_verified-IsSound oid size uri db fits s =
    updated-IsSound _ _ db (λ o. refl) (λ o. refl) (λ o. refl) (λ o v. refl) fits s

-- What the checks of the stored row let through.
pub stored_uri-ok :
    (size : ℤ) (o : Object) (db db' : Db) (v : Str)
    → stored_uri size o db ≡ (ok v, db')
    → consistent o ≡ true
    → (o.size ≡ some size)
      × (o.object_uri ≡ some v)
      × (is_some o.verified_at ≡ true)
      × (v ≢ [])
      × (db' ≡ db)
unfolding stored_uri deref
stored_uri-ok size o db db' v h c = ground arith
