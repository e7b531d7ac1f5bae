-- ===== src/Database/Exec/Laws.antt =====
-- What a database action that returned has done, and that a transaction is atomic.
use git_lfs_server.Base.{true, ◌≡◌, refl, sym, ap, subst, ◌∙◌, [], List, Bool, all, arith}
use git_lfs_server.Error.{Error, Result, ok, err}
use git_lfs_server.Database.Schema.{Db, consistent}
use git_lfs_server.Database.Exec.{
  Exec, pure, continue, ◌>>=◌, query, command, sent, closed, bracketed, transaction,
}

module _ {A B : Type 0} where
  continue-ok :
      (r : Result A) (f : A → Exec B) (db db' : Db) (b : B)
      → continue r f db ≡ (ok b, db')
      → (a : A) × (r ≡ ok a) × (f a db ≡ (ok b, db'))
  continue-ok (ok a) f db db' b h = (a, refl, h)
  continue-ok (err e) f db db' b h = cc

  -- A block that returned: its first action returned, and so did the rest.
  pub >>=-ok :
      (m : Exec A) (f : A → Exec B) (db db' : Db) (b : B)
      → (m >>= f) db ≡ (ok b, db')
      → (a : A) × (mid : Db) × (m db ≡ (ok a, mid)) × (f a mid ≡ (ok b, db'))
  unfolding ◌>>=◌
  >>=-ok m f db db' b h =
      let (a, e, rest) = continue-ok (m db).0 f (m db).1 db' b h in
      (a, (m db).1, ap (λ r. (r, (m db).1)) e, rest)

module _ {A : Type 0} where
  closed-ok :
      {a : A} {db' : Db} (db : Db) (r : Result A × Db) → closed db r ≡ (ok a, db') → r ≡ (ok a, db')
  closed-ok db (ok a, after) h = h
  closed-ok db (err e, after) h = cc

  -- What a rollback leaves: the database as it was, but for the statements sent.
  closed-err :
      {e : Error} {db' : Db} (db : Db) (r : Result A × Db)
      → closed db r ≡ (err e, db')
      → db' ≡ record db { faults = db'.faults }
  closed-err db (ok a, after) h = cc
  closed-err db (err e, after) h = ground arith

  pub pure-ok : (a b : A) (db db' : Db) → pure a db ≡ (ok b, db') → (b ≡ a) × (db' ≡ db)
  pure-ok a b db db' h = ground arith

  pub query-ok :
      (f : Db → A) (db db' : Db) (a : A) → query f db ≡ (ok a, db') → (a ≡ f db) × (db' ≡ sent db)
  unfolding query
  query-ok f db db' a h = ground arith

  -- A statement that wrote left every row within the CHECK constraint.
  pub command-ok :
      (f : Db → A × Db) (db db' : Db) (a : A)
      → command f db ≡ (ok a, db')
      → (f (sent db) ≡ (a, db')) × (all consistent db'.objects ≡ true)
  unfolding command
  command-ok f db db' a h = ground arith

module _ {A : Type 0} where
  -- A transaction that returned ran its function to the end.
  pub transaction-ok :
      (m : Exec A) (db db' : Db) (a : A)
      → transaction m db ≡ (ok a, db')
      → (end : Db) × (m (sent db) ≡ (ok a, end)) × (db' ≡ sent end)
  unfolding transaction bracketed
  transaction-ok m db db' a h =
      let (_, db₁, e₁, h₁) =
        >>=-ok (query (λ _. tt {0})) _ db db' a (closed-ok db (bracketed m db) h) in
      let (b, db₂, e₂, h₂) = >>=-ok m _ db₁ db' a h₁ in
      let (_, db₃, e₃, h₃) = >>=-ok (query (λ _. tt {0})) _ db₂ db' a h₂ in
      let begun = (query-ok (λ _. tt {0}) db db₁ _ e₁).1 in
      let committed = (query-ok (λ _. tt {0}) db₂ db₃ _ e₃).1 in
      let (same, last) = pure-ok b a db₃ db' h₃ in (db₂, rw (same, ← begun) e₂, last ∙ committed)

  -- A transaction that fails changes no row.
  pub transaction-err :
      (m : Exec A) (db db' : Db) (e : Error)
      → transaction m db ≡ (err e, db')
      → db' ≡ record db { faults = db'.faults }
  unfolding transaction
  transaction-err m db db' e h = closed-err db (bracketed m db) h

module _ {A B : Type 0} where
  pub >>=-eq :
      (m : Exec A) (f : A → Exec B) (db mid : Db) (a : A) (r : Result B × Db)
      → m db ≡ (ok a, mid)
      → f a mid ≡ r
      → (m >>= f) db ≡ r
  unfolding ◌>>=◌
  >>=-eq m f db mid a r e h = ap (λ p. continue p.0 f p.1) e ∙ h

module _ {A : Type 0} where
  -- A statement that no fault and no constraint stops.
  pub query-eq : (f : Db → A) (db : Db) → db.faults ≡ [] → query f db ≡ (ok (f db), sent db)
  unfolding query
  query-eq f db up = ground arith

  pub command-eq :
      (f : Db → A × Db) (db mid : Db) (a : A)
      → db.faults ≡ []
      → f (sent db) ≡ (a, mid)
      → all consistent mid.objects ≡ true
      → command f db ≡ (ok a, mid)
  unfolding command
  command-eq f db mid a up e fits = ground arith

module _ {A : Type 0} where
  pub transaction-eq :
      (m : Exec A) (db end : Db) (a : A)
      → db.faults ≡ []
      → m (sent db) ≡ (ok a, end)
      → end.faults ≡ []
      → transaction m db ≡ (ok a, sent end)
  unfolding transaction bracketed
  transaction-eq m db end a up e up' = ap (closed db) (
      >>=-eq (query (λ _. tt {0})) _ db (sent db) tt _ (query-eq (λ _. tt {0}) db up) (
        >>=-eq m _ (sent db) end a _ e (
          >>=-eq (query (λ _. tt {0})) (λ _. pure a) end (sent end) tt _
            (query-eq (λ _. tt {0}) end up') refl)))

-- A transaction keeps what does not depend on the faults, if its function does when it returns.
pub transaction-keeps :
    {A : Type 0} (P : Db → Type 0) (m : Exec A) (db : Db)
    → ((d : Db) (fs : List Bool) → P d → P (record d { faults = fs }))
    → ((start end : Db) (a : A) → P start → m start ≡ (ok a, end) → P end)
    → P db
    → P (transaction m db).1
transaction-keeps {A} P m db faults keeps s = go (transaction m db).0 (transaction m db).1 refl
  where
    go : (r : Result A) (db' : Db) → transaction m db ≡ (r, db') → P db'
    go (err e) db' h = subst P (sym (transaction-err m db db' e h)) (faults db db'.faults s)
    go (ok a) db' h =
        let (end, e, last) = transaction-ok m db db' a h in
        subst P (sym last) (faults end _ (keeps (sent db) end a (faults db _ s) e))
