-- ===== src/Database/Sweeps/Fewer.antt =====
-- Deleting the rows that a sweep has chosen leaves fewer rows that it would choose.
use git_lfs_server.Base.{
  ℕ, zero, suc, ◌≤◌, ◌<◌, ◌≡◌, refl, ap, Bool, true, false, not, some, List, [], ◌∷◌, map, all,
  filter, count, take, length, arith, inl, inr, ◌⊎◌,
}
use git_lfs_server.Error.{ok}
use git_lfs_server.Database.Schema.{Object, Db, consistent}
use git_lfs_server.Database.Exec.{command, sent, later_faults}
use git_lfs_server.Database.Exec.Laws.{>>=-eq, command-eq}
use git_lfs_server.Database.Statements.{find, has_id, any_id, order_by, delete_ids}
use git_lfs_server.Database.Objects.{delete_rows}
use git_lfs_server.Database.Invariant.{Below}
use git_lfs_server.Database.Sweeps.Chosen.{chosen, chosen-All, length-order_by}
use git_lfs_server.Database.Sweeps.Kept.{remaining, filter-consistent}

pub delete_rows-total :
    (rows : List Object) (db : Db)
    → db.faults ≡ []
    → all consistent db.objects ≡ true
    → (db' : Db) × (delete_rows rows db ≡ (ok rows, db')) × (db'.faults ≡ [])
unfolding delete_rows delete_ids
delete_rows-total [] db up fits = (db, refl, up)
delete_rows-total (r ∷ rows) db up fits = (
  record (sent db) { objects = remaining (r ∷ rows) db.objects },
  >>=-eq (command (delete_ids (map (λ o. o.id) (r ∷ rows)))) _ db _ tt _
      (command-eq (delete_ids (map (λ o. o.id) (r ∷ rows))) db
        (record (sent db) { objects = remaining (r ∷ rows) db.objects }) tt up refl
        (filter-consistent _ db.objects fits))
      refl,
  ap later_faults up,
)

zero_or_more : (n : ℕ) → (n ≡ 0) ⊎ (0 < n)
zero_or_more zero = inl refl
zero_or_more (suc n) = inr (omega arith)

count-filter-le : (p q : Object → Bool) (os : List Object) → count p (filter q os) ≤ count p os
unfolding count filter
count-filter-le p q [] = omega arith
count-filter-le p q (o ∷ os) = let rest = count-filter-le p q os in ground arith

count-filter-lt :
    (p q : Object → Bool) (id : ℕ) (os : List Object) (o : Object)
    → find (has_id id) os ≡ some o
    → p o ≡ true
    → q o ≡ false
    → count p (filter q os) < count p os
unfolding count filter find
count-filter-lt p q id [] o h k m = cc
count-filter-lt p q id (x ∷ os) o h k m =
    let rest = count-filter-le p q os in ground (arith, count-filter-lt p q id os o)

length-filter : (p : Object → Bool) (os : List Object) → length (filter p os) ≡ count p os
unfolding count filter
length-filter p [] = refl
length-filter p (o ∷ os) = let rest = length-filter p os in ground arith

first_taken :
    (n : ℕ) (os : List Object)
    → 0 < length os
    → (r : Object) × (rest : List Object) × (take (suc n) os ≡ r ∷ rest)
first_taken n [] h = absurd (omega (arith, h))
first_taken n (o ∷ os) h = (o, take n os, refl)

abbrev pub with_faults : Db → List Bool → Db
with_faults db fs = record db { faults = fs }

-- The tables without these rows, where no fault is to come.
abbrev pub without : List Object → Db → Db
without rows db = record db { objects = remaining rows db.objects; faults = [] }

abbrev pub spared : List Object → Object → Bool
spared rows o = not (any_id (map (λ r. r.id) rows) o)

-- Where there is a row that passes the test, fewer are left than there were.
pub fewer :
    (key : Object → ℕ) (test : Object → Bool) (limit n k : ℕ) (os : List Object)
    → Below n os
    → count test os ≤ suc k
    → count test (filter (spared (chosen key test (suc limit) os)) os) ≤ k
fewer key test limit n k os b few = elim (zero_or_more (count test os)) [
  | inl e ↦
      let less = count-filter-le test (spared (chosen key test (suc limit) os)) os in
      omega (arith, e, less)
  | inr more ↦
      let long : 0 < length (order_by key (filter test os)) =
        rw (length-order_by key (filter test os), length-filter test os) more in
      let (r, rest, e) = first_taken limit (order_by key (filter test os)) long in
      let hits = rw e at (chosen-All key test (suc limit) n os b) in
      let less =
        count-filter-lt test (spared (r ∷ rest)) r.id os r hits.0.0 hits.0.1 (ground arith) in
      rw e (omega (arith, less, few))
]
