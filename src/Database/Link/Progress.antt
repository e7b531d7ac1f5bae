-- ===== src/Database/Link/Progress.antt =====
-- LinkObject returns when the database serves every statement and the sizes agree.
use git_lfs_server.Base.{
  ℕ, ◌≡◌, refl, ap, ◌∙◌, ◌≢◌, Bool, true, false, Option, none, some, List, [], ◌∷◌, all, is_some,
  arith, inl, inr, ◌⊎◌, Option-cases, Bool-cases,
}
use git_lfs_server.Base.Int.{ℤ}
use git_lfs_server.Base.Text.{Str}
use git_lfs_server.Error.{ok}
use git_lfs_server.Database.Schema.{Object, Db, consistent}
use git_lfs_server.Database.Exec.{command, pure, sent, later_faults}
use git_lfs_server.Database.Exec.Laws.{>>=-eq, command-eq, transaction-eq}
use git_lfs_server.Database.Statements.{
  find, update_where, has_oid, has_id, excluded, fill, upsert, recount, insert_link,
  insert_link_unless, is_linked,
}
use git_lfs_server.Database.Objects.{link_body, link_object, attach, stored_uri, deref}
use git_lfs_server.Database.Invariant.Rows.{find-consistent}

update-consistent :
    (p : Object → Bool) (f : Object → Object) (os : List Object)
    → ((o : Object) → consistent o ≡ true → consistent (f o) ≡ true)
    → all consistent os ≡ true
    → all consistent (update_where p f os) ≡ true
unfolding update_where
update-consistent p f [] keeps h = refl
update-consistent p f (o ∷ os) keeps h = elim (Bool-cases (consistent o)) [
  | inl e ↦ elim (Bool-cases (p o)) [
    | inl hit ↦ rw (hit, keeps o e) (update-consistent p f os keeps (rw e at h))
    | inr miss ↦ rw (miss, e) (update-consistent p f os keeps (rw e at h))
  ]
  | inr e ↦ absurd (cc (rw e at h))
]

upsert-consistent :
    (oid : Str) (size : ℤ) (uri : Str) (db : Db)
    → all consistent db.objects ≡ true
    → all consistent (upsert oid size uri db).1.objects ≡ true
unfolding upsert
upsert-consistent oid size uri db h = elim (Option-cases (find (has_oid oid) db.objects)) [
  | inl e ↦ rw e h
  | inr (old, e) ↦ rw e (
      update-consistent (has_oid oid) (fill (excluded oid size uri db)) db.objects
        (λ o k. ground arith) h)
]

upsert-faults :
    (oid : Str) (size : ℤ) (uri : Str) (db : Db) → (upsert oid size uri db).1.faults ≡ db.faults
unfolding upsert
upsert-faults oid size uri db = elim (Option-cases (find (has_oid oid) db.objects)) [
  | inl e ↦ rw e
  | inr (old, e) ↦ rw e
]

-- Without a fault `attach` returns.
attach-total :
    (repo : Str) (id : ℕ) (db : Db)
    → db.faults ≡ []
    → all consistent db.objects ≡ true
    → (db' : Db) × (attach repo id db ≡ (ok tt, db')) × (db'.faults ≡ [])
unfolding attach insert_link recount
attach-total repo id db up fits = elim (Bool-cases (is_linked repo id db.repo_objects)) [
  | inl old ↦ (
    sent db,
    >>=-eq (command (insert_link repo id)) _ db (sent db) 0 _
        (command-eq (insert_link repo id) db (sent db) 0 up (rw old) fits) refl,
    rw up,
  )
  | inr new ↦
      let mid = (insert_link_unless false repo id (sent db)).1 in
      let end = (recount id (sent mid)).1 in
      (
        end,
        >>=-eq (command (insert_link repo id)) _ db mid 1 _
            (command-eq (insert_link repo id) db mid 1 up (rw new) fits)
            (command-eq (recount id) mid end tt (rw up) refl
              (update-consistent (has_id id) _ db.objects (λ o k. k) fits)),
        rw up,
      )
]

-- The row that LinkObject checks agrees with the request.
abbrev pub Agrees : ℤ → Option Object → Type 0
Agrees size none = Unit {0}
Agrees size (some old) =
    (is_some old.verified_at ≡ false) ⊎ ((old.size ≡ some size) × (old.object_uri ≢ some []))

checked_row :
    (oid : Str) (size : ℤ) (uri : Str) (db : Db)
    → all consistent db.objects ≡ true
    → uri ≢ []
    → Agrees size (find (has_oid oid) db.objects)
    → (v : Str) × ((upsert oid size uri db).0.size ≡ some size)
      × ((upsert oid size uri db).0.object_uri ≡ some v)
      × (v ≢ [])
unfolding upsert
checked_row oid size uri db fits named agrees =
    elim (Option-cases (find (has_oid oid) db.objects)) [
      | inl e ↦ rw e (uri, refl, refl, named)
      | inr (old, e) ↦
          let fit = find-consistent _ db.objects old fits e in
          rw e (fill_row old fit (rw e at agrees))
    ]
  where
    fill_row :
        (old : Object)
        → consistent old ≡ true
        → Agrees size (some old)
        → (v : Str) × ((fill (excluded oid size uri db) old).size ≡ some size)
          × ((fill (excluded oid size uri db) old).object_uri ≡ some v)
          × (v ≢ [])
    fill_row old fit (inl pending) = (uri, ground arith, ground arith, named)
    fill_row old fit (inr (same, there)) = elim (Option-cases old.object_uri) [
      | inl e ↦ absurd (ground arith)
      | inr (v, e) ↦ (v, ground arith, ground arith, λ k. there (e ∙ ap some k))
    ]

stored_uri-eq :
    (size : ℤ) (o : Object) (db : Db) (v : Str)
    → o.size ≡ some size
    → o.object_uri ≡ some v
    → v ≢ []
    → stored_uri size o db ≡ (ok v, db)
unfolding stored_uri deref
stored_uri-eq size o db v s u n = ground arith

-- On a database that serves every statement and keeps its constraint, LinkObject returns a URI if
-- it is given a URI and the object id has no row, a row that is not verified, or a verified row of
-- the given size with a URI.
pub link_object-total :
    (repo oid : Str) (size : ℤ) (uri : Str) (db : Db)
    → db.faults ≡ []
    → all consistent db.objects ≡ true
    → uri ≢ []
    → Agrees size (find (has_oid oid) db.objects)
    → (stored : Str) × (db' : Db) × (link_object repo oid size uri db ≡ (ok stored, db'))
unfolding link_object link_body
link_object-total repo oid size uri db up fits named agrees =
    let start = sent (sent db) in
    let o = (upsert oid size uri start).0 in
    let mid = (upsert oid size uri start).1 in
    let fit = upsert-consistent oid size uri start fits in
    let quiet = upsert-faults oid size uri start ∙ ap later_faults (ap later_faults up) in
    let (v, row_size, row_uri, there) = checked_row oid size uri start fits named agrees in
    let (end, attached, still) = attach-total repo o.id mid quiet fit in
    (
      v,
      sent end,
      transaction-eq (link_body repo oid size uri) db end v up
          (>>=-eq (command (upsert oid size uri)) _ (sent db) mid o _
            (command-eq (upsert oid size uri) (sent db) mid o (ap later_faults up) refl fit)
            (>>=-eq (stored_uri size o) _ mid mid v _
              (stored_uri-eq size o mid v row_size row_uri there)
              (>>=-eq (attach repo o.id) (λ _. pure v) mid end tt _ attached refl)))
          still,
    )
