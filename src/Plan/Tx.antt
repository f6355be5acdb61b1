-- ===== src/Plan/Tx.antt =====
-- Calls inside `conn.transaction()`: a statement changes the database or raises.
pub mod Inversion
pub mod Preserves
use water_info.Base.{ℕ, ℤ, String, Bool, true, false, Option, none, some, List, if◌then◌else◌}
use water_info.Base.Result.{Result, ok, err}
use water_info.Plan.Tables.{PlanStatus, Db}

-- The exceptions of plan_review.py, and those of the database and of `int(...)`, which the
-- endpoints answer with status 500.
pub data Error : Type 0 where
  plan_not_found : Error
  state_conflict : PlanStatus → List PlanStatus → Error
  version_conflict : ℕ → ℤ → Error
  action_not_found : String → Error
  resource_not_found : ℤ → Error
  notification_not_found : ℤ → Error
  validation_failed : List String → Error
  server_error : Error

abbrev pub Tx : Type 0 → Type 0
Tx A = Db → Result Error A × Db

module _ {A : Type 0} where
  unfoldable pub pure : A → Tx A
  pure a db = (ok a, db)

  unfoldable pub raise : Error → Tx A
  raise e db = (err e, db)

  unfoldable pub gets : (Db → A) → Tx A
  gets f db = (ok (f db), db)

unfoldable pub exec : (Db → Db) → Tx (Unit {0})
exec f db = (ok tt, f db)

unfoldable pub require : Bool → Error → Tx (Unit {0})
require true e db = (ok tt, db)
require false e db = (err e, db)

module _ {A B : Type 0} where
  abbrev pub continue : Result Error A → (A → Tx B) → Tx B
  continue (ok a) f db = f a db
  continue (err e) f db = (err e, db)

  infixl 10 ◌>>=◌ ◌>>◌
  unfoldable pub ◌>>=◌ : Tx A → (A → Tx B) → Tx B
  unfolding pure raise gets exec require
  ◌>>=◌ m f db = let (r, db') = m db in continue r f db'

  abbrev pub ◌>>◌ : Tx A → Tx B → Tx B
  m >> k = m >>= λ _. k

-- `async with conn.transaction()`: an exception undoes the changes of the tables. What was drawn
-- from a sequence stays drawn.
module _ {A : Type 0} where
  abbrev pub finish : Db → Result Error A → Db → Result Error A × Db
  finish before (ok a) after = (ok a, after)
  finish before (err e) after = (err e, record before { seq = after.seq })

  unfoldable pub transaction : Tx A → Tx A
  transaction m db = let (r, db') = m db in finish db r db'
