-- ===== src/Plan/Tx/Inversion.antt =====
-- What a successful transaction went through.
use water_info.Base.{if◌then◌else◌, ◌≡◌, refl, Bool, true, false}
use water_info.Base.Result.{Result, ok, err}
use water_info.Plan.Tables.{Db, Sequences}
use water_info.Plan.Tx.{
  Error, Tx, pure, raise, gets, exec, require, continue, finish, transaction, ◌>>=◌,
}

-- `m` returned `a` and left `db'`.
abbrev pub Returns : {A : Type 0} → Tx A → Db → A → Db → Type 0
Returns m db a db' = m db ≡ (ok a, db')

module _ {A B : Type 0} where
  continue-ok :
      (r : Result Error A) (mid : Db) (f : A → Tx B) (b : B) (db' : Db)
      → continue r f mid ≡ (ok b, db')
      → (a : A) × (r ≡ ok a) × (f a mid ≡ (ok b, db'))
  continue-ok (ok a) mid f b db' h = (a, refl, h)
  continue-ok (err e) mid f b db' h = cc

  -- A block that returned has run its first call and its rest.
  pub >>=-ok :
      (m : Tx A) (f : A → Tx B) (db : Db) (b : B) (db' : Db)
      → Returns (m >>= f) db b db'
      → (a : A) × (mid : Db) × Returns m db a mid × Returns (f a) mid b db'
  unfolding ◌>>=◌
  >>=-ok m f db b db' h =
      let (a, e, rest) = continue-ok (m db).0 (m db).1 f b db' h in (a, (m db).1, cc e, rest)

pub require-ok :
    (b : Bool) (e : Error) (db : Db) (u : Unit {0}) (db' : Db)
    → Returns (require b e) db u db'
    → (b ≡ true) × (db' ≡ db)
unfolding require
require-ok true e db u db' h = (refl, cc h)
require-ok false e db u db' h = cc

module _ {A : Type 0} where
  pub pure-ok :
      (a : A) (db : Db) (b : A) (db' : Db) → Returns (pure a) db b db' → (a ≡ b) × (db' ≡ db)
  unfolding pure
  pure-ok a db b db' h = (cc h, cc h)

  pub gets-ok :
      (f : Db → A) (db : Db) (b : A) (db' : Db)
      → Returns (gets f) db b db'
      → (f db ≡ b) × (db' ≡ db)
  unfolding gets
  gets-ok f db b db' h = (cc h, cc h)

pub exec-ok :
    (f : Db → Db) (db : Db) (u : Unit {0}) (db' : Db) → Returns (exec f) db u db' → db' ≡ f db
unfolding exec
exec-ok f db u db' h = cc h

module _ {A : Type 0} where
  finish-ok :
      (before : Db) (r : Result Error A) (after : Db) (a : A) (db' : Db)
      → finish before r after ≡ (ok a, db')
      → (r ≡ ok a) × (after ≡ db')
  finish-ok before (ok b) after a db' h = (cc h, cc h)
  finish-ok before (err e) after a db' h = cc

  -- A transaction that returned did what its body did.
  pub transaction-ok :
      (m : Tx A) (db : Db) (a : A) (db' : Db)
      → Returns (transaction m) db a db'
      → Returns m db a db'
  unfolding transaction
  transaction-ok m db a db' h = let (e, f) = finish-ok db (m db).0 (m db).1 a db' h in cc (e, f)

  finish-err :
      (before : Db) (r : Result Error A) (after : Db) (e : Error) (db' : Db)
      → finish before r after ≡ (err e, db')
      → db' ≡ record before { seq = after.seq }
  finish-err before (ok b) after e db' h = cc
  finish-err before (err x) after e db' h = cc h

  -- A transaction that raised left every table as it was.
  pub transaction-err :
      (m : Tx A) (db : Db) (e : Error) (db' : Db)
      → transaction m db ≡ (err e, db')
      → (s : Sequences) × (db' ≡ record db { seq = s })
  unfolding transaction
  transaction-err m db e db' h = ((m db).1.seq, finish-err db (m db).0 (m db).1 e db' h)

  -- A test that raises was not met.
  pub if-raise-ok :
      (b : Bool) (e : Error) (m : Tx A) (db : Db) (a : A) (db' : Db)
      → Returns (if b then raise e else m) db a db'
      → (b ≡ false) × Returns m db a db'
  unfolding raise
  if-raise-ok true e m db a db' h = cc
  if-raise-ok false e m db a db' h = (refl, h)
