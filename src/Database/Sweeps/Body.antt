-- ===== src/Database/Sweeps/Body.antt =====
-- The transaction that both sweeps are: select rows by a test, an order and a limit, delete them.
use git_lfs_server.Base.{
  ℕ, ◌≤◌, ◌≡◌, refl, ◌∙◌, Bool, true, false, not, some, subst, List, [], ◌∷◌, map, All, All-map₂,
  filter, length, length-take-le, arith, inl, inr, Bool-cases,
}
use git_lfs_server.Base.Int.{ℤ}
use git_lfs_server.Base.Text.{Str}
use git_lfs_server.Error.{ok}
use git_lfs_server.Database.Schema.{Object, Db}
use git_lfs_server.Database.Exec.{Exec, query, sent, transaction, ◌>>=◌}
use git_lfs_server.Database.Exec.Laws.{>>=-ok, query-ok, transaction-ok, transaction-keeps}
use git_lfs_server.Database.Statements.{find, has_id, has_oid, any_id}
use git_lfs_server.Database.Objects.{delete_rows}
use git_lfs_server.Database.Invariant.{IsSound}
use git_lfs_server.Database.Invariant.Links.{IsSound-faults}
use git_lfs_server.Database.Link.{IsStored, IsStored-faults}
use git_lfs_server.Database.Link.Sound.{transaction-IsSound}
use git_lfs_server.Database.Sweeps.Chosen.{chosen, chosen-All, deleted-test}
use git_lfs_server.Database.Sweeps.Kept.{IsUnlinked, remaining, filter-IsSound, delete_rows-ok}

pub find-All {κ} :
    (P : Object → Type κ) (p : Object → Bool) (os : List Object) (o : Object)
    → All P os
    → find p os ≡ some o
    → P o
unfolding find
find-All P p [] o a h = cc
find-All P p (x ∷ os) o a h = elim (Bool-cases (p x)) [
  | inl e ↦ let same : x ≡ o = ground arith in subst P same a.0
  | inr e ↦ find-All P p os o a.1 (rw e at h)
]

pub find-filter :
    (p q : Object → Bool) (os : List Object) (o : Object)
    → find p os ≡ some o
    → q o ≡ true
    → find p (filter q os) ≡ some o
unfolding find filter
find-filter p q [] o h k = cc
find-filter p q (x ∷ os) o h k = ground (arith, find-filter p q os o)

not-eq-true : (b : Bool) → ¬ (b ≡ true) → not b ≡ true
not-eq-true true h = absurd (h refl)
not-eq-true false h = refl

module _ (key : Object → ℕ) (test : ℕ → Object → Bool) (limit : ℕ) (sel : Db → List Object)
    (selects : (db : Db) → sel db ≡ chosen key (test db.now) limit db.objects) where
  abbrev body : Exec (List Object)
  body = do rows ← query sel; delete_rows rows

  pub body-ok :
      (db db' : Db) (rows : List Object)
      → body db ≡ (ok rows, db')
      → (rows ≡ chosen key (test db.now) limit db.objects)
        × (db' ≡ record db { objects = remaining rows db.objects; faults = db'.faults })
  body-ok db db' rows h =
      let (rs, mid, e, rest) = >>=-ok (query sel) _ db db' rows h in
      let (same, next) = query-ok sel db mid rs e in
      let (out, last) = delete_rows-ok rs mid db' rows rest in
      (
        out ∙ same ∙ selects db,
        rw out (
            subst (λ m. db' ≡ record m { objects = remaining rs m.objects; faults = db'.faults })
              next last),
      )

  -- A row that the sweep deletes passes its test.
  pub deleted :
      (db : Db) (rows : List Object)
      → IsSound db
      → rows ≡ chosen key (test db.now) limit db.objects
      → All (λ o. any_id (map (λ r. r.id) rows) o ≡ true → test db.now o ≡ true) db.objects
  deleted db rows s e =
      rw e (deleted-test key (test db.now) limit db.next_object_id db.objects s.ids)

  -- The rows that the sweep returns.
  pub swept-rows :
      (db db' : Db) (rows : List Object)
      → IsSound db
      → transaction body db ≡ (ok rows, db')
      → (length rows ≤ limit)
        × All (λ r. (find (has_id r.id) db.objects ≡ some r) × (test db.now r ≡ true)) rows
  swept-rows db db' rows s h =
      let (end, e, _) = transaction-ok body db db' rows h in
      let (same, _) = body-ok (sent db) end rows e in
      rw same (
        length-take-le limit _,
        chosen-All key (test db.now) limit db.next_object_id db.objects s.ids,
      )

  module _
      (unlinked : (db : Db)
        → IsSound db
        → All (λ o. test db.now o ≡ true → IsUnlinked db.repo_objects o) db.objects) where
    body-IsSound :
        (db db' : Db) (rows : List Object) → IsSound db → body db ≡ (ok rows, db') → IsSound db'
    body-IsSound db db' rows s h =
        let (same, last) = body-ok db db' rows h in
        rw last (
          IsSound-faults _ (
            filter-IsSound _ db
              (All-map₂ db.objects (λ o gone free kept. free (gone (ground arith)))
                (deleted db rows s same) (unlinked db s))
              s))

    pub swept-IsSound : (db : Db) → IsSound db → IsSound (transaction body db).1
    swept-IsSound db s =
        transaction-IsSound body db (λ start end a k h. body-IsSound start end a k h) s

    module _ (repo oid : Str) (size : ℤ) (uri : Str)
        (spared : (db : Db)
          → IsSound db
          → (s : IsStored repo oid size uri db) → ¬ (test db.now s.row ≡ true)) where
      body-IsStored :
          (db db' : Db) (rows : List Object)
          → IsSound db
          → IsStored repo oid size uri db
          → body db ≡ (ok rows, db')
          → IsStored repo oid size uri db'
      body-IsStored db db' rows sound s h =
          let (same, last) = body-ok db db' rows h in
          let gone =
            find-All _ (has_oid oid) db.objects s.row (deleted db rows sound same) s.found in
          let stays : not (any_id (map (λ r. r.id) rows) s.row) ≡ true =
            not-eq-true (any_id (map (λ r. r.id) rows) s.row) (λ e. spared db sound s (gone e)) in
          record {
            row = s.row;
            found = rw last (find-filter (has_oid oid) _ db.objects s.row s.found stays);
            row_size = s.row_size;
            row_uri = s.row_uri;
            verified = s.verified;
            linked = rw last s.linked;
          }

      pub swept-IsStored :
          (db : Db)
          → IsSound db
          → IsStored repo oid size uri db
          → IsStored repo oid size uri (transaction body db).1
      swept-IsStored db sound s =
          (transaction-keeps (λ d. IsSound d × IsStored repo oid size uri d) body db
            (λ d fs k. (IsSound-faults {db = d} fs k.0, IsStored-faults repo oid size uri d fs k.1))
            (λ start end a k h.
              (body-IsSound start end a k.0 h, body-IsStored start end a k.0 k.1 h))
            (sound, s)).1
