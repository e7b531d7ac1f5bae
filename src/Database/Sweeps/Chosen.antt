-- ===== src/Database/Sweeps/Chosen.antt =====
-- The rows that a sweep has selected are rows of the table that pass its test, and deleting by
-- their keys deletes no other row.
use git_lfs_server.Base.{
  ℕ, suc, ◌<◌, ◌≡◌, refl, sym, ap, ◌∙◌, Bool, true, some, List, [], ◌∷◌, map, All, All-map,
  All-map₂, All-take, All-filter, filter, take, length, arith, inl, inr, Bool-cases, leb,
}
use git_lfs_server.Database.Schema.{Object}
use git_lfs_server.Database.Statements.{find, has_id, any_id, order_by, insert_sorted}
use git_lfs_server.Database.Invariant.{Below}

Below-All : (n : ℕ) (os : List Object) → Below n os → All (λ o. o.id < n) os
Below-All n [] b = tt
Below-All n (o ∷ os) b = (b.0.1, All-map os (λ x h. omega arith) (Below-All o.id os b.1))

-- Keys are distinct: the key of a row finds that row.
pub find_by_id :
    (n : ℕ) (os : List Object) → Below n os → All (λ o. find (has_id o.id) os ≡ some o) os
unfolding find
find_by_id n [] b = tt
find_by_id n (o ∷ os) b = (
  ground arith,
  All-map₂ os (λ x h k. ground arith) (Below-All o.id os b.1) (find_by_id o.id os b.1),
)

module _ {κ} (P : Object → Type κ) (key : Object → ℕ) where
  insert_sorted-All :
      (o : Object) (os : List Object) → P o → All P os → All P (insert_sorted key o os)
  unfolding insert_sorted
  insert_sorted-All o [] h k = (h, tt)
  insert_sorted-All o (x ∷ os) h k = elim (Bool-cases (leb (key o) (key x))) [
    | inl e ↦ rw e (h, k)
    | inr e ↦ rw e (k.0, insert_sorted-All o os h k.1)
  ]

  pub order_by-All : (os : List Object) → All P os → All P (order_by key os)
  unfolding order_by
  order_by-All [] h = tt
  order_by-All (o ∷ os) h = insert_sorted-All o (order_by key os) h.0 (order_by-All os h.1)

module _ (key : Object → ℕ) where
  length-insert_sorted :
      (o : Object) (os : List Object) → length (insert_sorted key o os) ≡ suc (length os)
  unfolding insert_sorted
  length-insert_sorted o [] = refl
  length-insert_sorted o (x ∷ os) = ground (arith, length-insert_sorted o os)

  pub length-order_by : (os : List Object) → length (order_by key os) ≡ length os
  unfolding order_by
  length-order_by [] = refl
  length-order_by (o ∷ os) = length-insert_sorted o (order_by key os) ∙ ap suc (length-order_by os)

-- The rows chosen from a table by a test, an order and a limit.
abbrev pub chosen : (Object → ℕ) → (Object → Bool) → ℕ → List Object → List Object
chosen key test limit os = take limit (order_by key (filter test os))

module _ (key : Object → ℕ) (test : Object → Bool) (limit n : ℕ) (os : List Object) where
  pub chosen-All :
      Below n os
      → All (λ o. (find (has_id o.id) os ≡ some o) × (test o ≡ true)) (chosen key test limit os)
  chosen-All b =
      All-take _ limit _ (order_by-All _ key _ (All-filter _ test os (find_by_id n os b)))

any_id-row :
    (os rows : List Object) (test : Object → Bool) (o : Object)
    → All (λ r. (find (has_id r.id) os ≡ some r) × (test r ≡ true)) rows
    → any_id (map (λ r. r.id) rows) o ≡ true
    → find (has_id o.id) os ≡ some o
    → test o ≡ true
any_id-row os [] test o a h f = absurd (cc)
any_id-row os (r ∷ rows) test o a h f = elim (Bool-cases (has_id r.id o)) [
  | inl e ↦
      let same : r.id ≡ o.id = ground arith in
      let row : some r ≡ some o = sym a.0.0 ∙ ap (λ k. find (has_id k) os) same ∙ f in
      let eq : r ≡ o = cc in rw (← eq) a.0.1
  | inr e ↦ any_id-row os rows test o a.1 (rw e at h) f
]

-- A row that is deleted with the chosen ones passes their test.
pub deleted-test :
    (key : Object → ℕ) (test : Object → Bool) (limit n : ℕ) (os : List Object)
    → Below n os
    → All (λ o. any_id (map (λ r. r.id) (chosen key test limit os)) o ≡ true → test o ≡ true) os
deleted-test key test limit n os b =
    All-map os
      (λ o f h.
        any_id-row os (chosen key test limit os) test o (chosen-All key test limit n os b) h f)
      (find_by_id n os b)
