-- ===== src/Database/Invariant/Rows.antt =====
-- Rows under an update, and rows that no key fits.
use git_lfs_server.Base.{
  ℕ, ◌≤◌, ◌<◌, ◌≡◌, refl, ◌≢◌, Bool, true, false, none, some, List, [], ◌∷◌, all, All, count,
  is_some, arith, if◌then◌else◌,
}
use git_lfs_server.Base.Text.{Str}
use git_lfs_server.Database.Schema.{Object, RepoObject, consistent}
use git_lfs_server.Database.Statements.{find, update_where, has_oid, of_object}
use git_lfs_server.Database.Invariant.{Below, DistinctOids, holds_verified, Counted, LinksHold}

pub Below-mono : {m n : ℕ} (os : List Object) → m ≤ n → Below m os → Below n os
Below-mono [] h b = tt
Below-mono (o ∷ os) h b = (omega arith, b.1)

-- A key past the table is none of its rows'.
pub holds_verified_above :
    (id n : ℕ) (os : List Object) → Below n os → n ≤ id → holds_verified id os ≡ false
unfolding holds_verified
holds_verified_above id n [] b h = refl
holds_verified_above id n (o ∷ os) b h = ground (arith, holds_verified_above id o.id os b.1)

pub count_above :
    (id : ℕ) (os : List Object) (ls : List RepoObject)
    → holds_verified id os ≡ false
    → LinksHold os ls
    → count (of_object id) ls ≡ 0
unfolding count
count_above id os [] h k = refl
count_above id os (l ∷ ls) h k = ground (arith, count_above id os ls h k.1)

-- An update that keeps the keys and forgets no verification.
module _ (p : Object → Bool) (f : Object → Object) (keeps_id : (o : Object) → (f o).id ≡ o.id) where
  pub update-Below : (n : ℕ) (os : List Object) → Below n os → Below n (update_where p f os)
  unfolding update_where
  update-Below n [] b = tt
  update-Below n (o ∷ os) b = ground (arith, keeps_id o, update-Below o.id os b.1)

  pub update-holds_verified :
      ((o : Object) → is_some o.verified_at ≡ true → is_some (f o).verified_at ≡ true)
      → (id : ℕ) (os : List Object) → holds_verified id os ≡ true
      → holds_verified id (update_where p f os) ≡ true
  unfolding update_where holds_verified
  update-holds_verified keeps id [] h = h
  update-holds_verified keeps id (o ∷ os) h =
      ground (arith, keeps_id o, keeps o, update-holds_verified keeps id os)

  pub update-LinksHold :
      ((o : Object) → is_some o.verified_at ≡ true → is_some (f o).verified_at ≡ true)
      → (os : List Object) (ls : List RepoObject) → LinksHold os ls
      → LinksHold (update_where p f os) ls
  update-LinksHold keeps os [] h = tt
  update-LinksHold keeps os (l ∷ ls) h =
      (update-holds_verified keeps l.object_id os h.0, update-LinksHold keeps os ls h.1)

  pub update-Counted :
      ((o : Object) → (f o).repo_count ≡ o.repo_count)
      → (ls : List RepoObject) (os : List Object) → All (Counted ls) os
      → All (Counted ls) (update_where p f os)
  unfolding update_where
  update-Counted keeps ls [] h = tt
  update-Counted keeps ls (o ∷ os) h =
      ground (arith, keeps_id o, keeps o, update-Counted keeps ls os h.1)

module _ (p : Object → Bool) (f : Object → Object)
    (keeps_oid : (o : Object) → (f o).oid ≡ o.oid) where
  update-ne :
      (oid : Str) (os : List Object)
      → All (λ q. q.oid ≢ oid) os
      → All (λ q. q.oid ≢ oid) (update_where p f os)
  unfolding update_where
  update-ne oid [] h = tt
  update-ne oid (o ∷ os) h = ground (arith, keeps_oid o, update-ne oid os h.1)

  updated_oid : (o : Object) → (if p o then f o else o).oid ≡ o.oid
  updated_oid o = ground (arith, keeps_oid o)

  pub update-DistinctOids :
      (os : List Object) → DistinctOids os → DistinctOids (update_where p f os)
  unfolding update_where
  update-DistinctOids [] h = tt
  update-DistinctOids (o ∷ os) h =
      (rw (updated_oid o) (update-ne o.oid os h.0), update-DistinctOids os h.1)

-- No row has the text that a search has missed.
pub find-eq-none :
    (oid : Str) (os : List Object) → find (has_oid oid) os ≡ none → All (λ q. q.oid ≢ oid) os
unfolding find
find-eq-none oid [] h = tt
find-eq-none oid (o ∷ os) h = ground (arith, find-eq-none oid os)

-- A row that a search has found.
pub find-oid :
    (oid : Str) (os : List Object) (o : Object) → find (has_oid oid) os ≡ some o → o.oid ≡ oid
unfolding find
find-oid oid [] o h = cc
find-oid oid (q ∷ os) o h = ground (arith, find-oid oid os o)

pub find-Below :
    (p : Object → Bool) (n : ℕ) (os : List Object) (o : Object)
    → Below n os
    → find p os ≡ some o
    → o.id < n
unfolding find
find-Below p n [] o b h = cc
find-Below p n (q ∷ os) o b h = ground (arith, find-Below p q.id os o b.1)

pub find-holds_verified :
    (p : Object → Bool) (os : List Object) (o : Object)
    → find p os ≡ some o
    → is_some o.verified_at ≡ true
    → holds_verified o.id os ≡ true
unfolding find holds_verified
find-holds_verified p [] o h v = cc
find-holds_verified p (q ∷ os) o h v = ground (arith, find-holds_verified p os o)

pub find-consistent :
    (p : Object → Bool) (os : List Object) (o : Object)
    → all consistent os ≡ true
    → find p os ≡ some o
    → consistent o ≡ true
unfolding find
find-consistent p [] o h e = cc
find-consistent p (q ∷ os) o h e = ground (arith, find-consistent p os o)
