-- ===== src/Database/Exec.antt =====
-- Database methods as actions: a result, and the database after it. Each statement may fail by a
-- fault of the connection, and one that writes fails if a row would break the CHECK constraint.
pub mod Laws
use git_lfs_server.Base.{Bool, false, List, [], ◌∷◌, all, if◌then◌else◌}
use git_lfs_server.Error.{Error, Result, ok, err, other}
use git_lfs_server.Database.Schema.{Db, consistent}

abbrev pub Exec : Type 0 → Type 0
Exec A = Db → Result A × Db

abbrev pub pure : {A : Type 0} → A → Exec A
pure a db = (ok a, db)

abbrev pub raise : {A : Type 0} → Error → Exec A
raise e db = (err e, db)

abbrev pub continue : {A B : Type 0} → Result A → (A → Exec B) → Exec B
continue (ok a) f db = f a db
continue (err e) f db = (err e, db)

infixl 5 ◌>>=◌ ◌>>◌
unfoldable pub ◌>>=◌ : {A B : Type 0} → Exec A → (A → Exec B) → Exec B
◌>>=◌ m f db = let (r, db') = m db in continue r f db'

abbrev pub ◌>>◌ : {A B : Type 0} → Exec A → Exec B → Exec B
m >> k = m >>= λ _. k

abbrev pub first_fault : List Bool → Bool
first_fault [] = false
first_fault (b ∷ bs) = b

abbrev pub later_faults : List Bool → List Bool
later_faults [] = []
later_faults (b ∷ bs) = bs

-- The database once a statement has been sent.
abbrev pub sent : Db → Db
sent db = record db { faults = later_faults db.faults }

-- Raw(…).Scan(…) of a SELECT
unfoldable pub query : {A : Type 0} → (Db → A) → Exec A
query f db =
    if first_fault db.faults
    then (err (other "statement failed"), sent db)
    else (ok (f db), sent db)

abbrev pub checked : {A : Type 0} → Db → A × Db → Result A × Db
checked db (a, after) =
    if all consistent after.objects
    then (ok a, after)
    else (err (other "check_verified_consistency"), db)

-- Exec, and Raw(…).Scan(…) of a statement that writes
unfoldable pub command : {A : Type 0} → (Db → A × Db) → Exec A
command f db =
    if first_fault db.faults
    then (err (other "statement failed"), sent db)
    else checked (sent db) (f (sent db))

abbrev pub closed : {A : Type 0} → Db → Result A × Db → Result A × Db
closed db (ok a, after) = (ok a, after)
closed db (err e, after) = (err e, record db { faults = after.faults })

-- BEGIN, the function, COMMIT
unfoldable pub bracketed : {A : Type 0} → Exec A → Exec A
bracketed m = do query (λ _. tt {0}); a ← m; query (λ _. tt {0}); pure a

-- Transaction: an error of the function, of BEGIN or of COMMIT rolls every write back.
unfoldable pub transaction : {A : Type 0} → Exec A → Exec A
transaction m db = closed db (bracketed m db)
