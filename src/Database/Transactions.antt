-- ===== src/Database/Transactions.antt =====
-- Statements in a row: what a transaction that commits went through.
use kingdom.Base.{◌≡◌, refl, arith}
use kingdom.Outcome.{Exn, Result, ok, err}
use kingdom.Database.{Db, Txn, continue, close, transaction, rollback, ◌>>=◌}

module _ {A B : Type 0} where
  continue-ok :
      (r : Result A) (f : A → Txn B) (mid db' : Db) {b : B}
      → continue r f mid ≡ (ok b, db')
      → (a : A) × (r ≡ ok a) × (f a mid ≡ (ok b, db'))
  continue-ok (ok a) f mid db' h = (a, refl, h)
  continue-ok (err e) f mid db' h = ground arith

  -- Both statements of a block that succeeds have succeeded.
  pub bind-ok :
      (m : Txn A) (f : A → Txn B) (db db' : Db) {b : B}
      → (m >>= f) db ≡ (ok b, db')
      → (a : A) × (mid : Db) × (m db ≡ (ok a, mid)) × (f a mid ≡ (ok b, db'))
  bind-ok m f db db' h =
      let found = continue-ok (m db).0 f (m db).1 db' h in
      (found.0, (m db).1, (λ i. (found.1 i, (m db).1)), found.2)

module _ {A : Type 0} where
  -- A transaction commits exactly what its statements leave.
  pub transaction-ok :
      (body : Txn A) (db db' : Db) {a : A}
      → transaction body db ≡ (ok a, db')
      → body db ≡ (ok a, db')
  transaction-ok body db db' h = ground arith

  -- A transaction that throws leaves every table as it was.
  pub transaction-err :
      (body : Txn A) (db db' : Db) {e : Exn}
      → transaction body db ≡ (err e, db')
      → db' ≡ rollback db db'
  transaction-err body db db' h = ground arith

-- A relation between the tables before and after that each statement keeps.
module _ (R : Db → Db → Type 0) (then_next : (a b c : Db) → R a b → R b c → R a c) where
  continue-keeps :
      {A B : Type 0} (before mid : Db) (r : Result A) (f : A → Txn B)
      → R before mid
      → ((a : A) (db : Db) → R db (f a db).1)
      → R before (continue r f mid).1
  continue-keeps before mid (ok a) f h kf = then_next before mid _ h (kf a mid)
  continue-keeps before mid (err e) f h kf = h

  pub bind-keeps :
      {A B : Type 0} (m : Txn A) (f : A → Txn B)
      → ((db : Db) → R db (m db).1)
      → ((a : A) (db : Db) → R db (f a db).1)
      → (db : Db) → R db ((m >>= f) db).1
  bind-keeps m f km kf db = continue-keeps db (m db).1 (m db).0 f (km db) kf

module _ (R : Db → Db → Type 0) (undo : (a b : Db) → R a b → R a (rollback a b)) where
  close-keeps :
      {A : Type 0} (before after : Db) (r : Result A)
      → R before after
      → R before (close before (r, after)).1
  close-keeps before after (ok a) h = h
  close-keeps before after (err e) h = undo before after h

  -- Whether it commits or is rolled back.
  pub transaction-keeps :
      {A : Type 0} (body : Txn A)
      → ((db : Db) → R db (body db).1)
      → (db : Db) → R db (transaction body db).1
  transaction-keeps body k db = close-keeps db (body db).1 (body db).0 (k db)
