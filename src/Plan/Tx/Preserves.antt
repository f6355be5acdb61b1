-- ===== src/Plan/Tx/Preserves.antt =====
-- What a block leaves as it was, one rule for each way to build a block.
use water_info.Base.{◌≡◌, refl, ap, ◌∙◌, Bool, true, false, List, [], ◌∷◌, if◌then◌else◌}
use water_info.Base.Result.{Result, ok, err}
use water_info.Plan.Tables.{Db}
use water_info.Plan.Tx.{Error, Tx, pure, raise, gets, exec, require, continue, ◌>>=◌}
use water_info.Plan.Patch.{for_each}

-- `m` does not change what `obs` sees, whether it returns or raises.
pub record Preserves {O A : Type 0} (obs : Db → O) (m : Tx A) : Type 0 where
  pub at : (db : Db) → obs (m db).1 ≡ obs db

module _ {O A : Type 0} {obs : Db → O} where
  pub Preserves-pure : (a : A) → Preserves obs (pure a)
  unfolding pure
  Preserves-pure a = record { at = λ db. refl }

  pub Preserves-raise : (e : Error) → Preserves obs (raise {A = A} e)
  unfolding raise
  Preserves-raise e = record { at = λ db. refl }

  pub Preserves-gets : (f : Db → A) → Preserves obs (gets f)
  unfolding gets
  Preserves-gets f = record { at = λ db. refl }

  pub Preserves-if :
      (b : Bool) (m n : Tx A)
      → Preserves obs m
      → Preserves obs n
      → Preserves obs (if b then m else n)
  Preserves-if true m n h k = h
  Preserves-if false m n h k = k

require-same : (b : Bool) (e : Error) (db : Db) → (require b e db).1 ≡ db
unfolding require
require-same true e db = refl
require-same false e db = refl

module _ {O : Type 0} {obs : Db → O} where
  pub Preserves-require : (b : Bool) (e : Error) → Preserves obs (require b e)
  Preserves-require b e = record { at = λ db. ap obs (require-same b e db) }

  pub Preserves-exec : (f : Db → Db) → ((db : Db) → obs (f db) ≡ obs db) → Preserves obs (exec f)
  unfolding exec
  Preserves-exec f h = record { at = h }

module _ {O A B : Type 0} {obs : Db → O} where
  continue-same :
      (r : Result Error A) (f : A → Tx B) (db : Db)
      → ((a : A) → Preserves obs (f a))
      → obs (continue r f db).1 ≡ obs db
  continue-same (ok a) f db h = (h a).at db
  continue-same (err e) f db h = refl

  pub Preserves-bind :
      (m : Tx A) (f : A → Tx B)
      → Preserves obs m
      → ((a : A) → Preserves obs (f a))
      → Preserves obs (m >>= f)
  unfolding ◌>>=◌
  Preserves-bind m f h k = record { at = λ db. continue-same (m db).0 f (m db).1 k ∙ h.at db }

module _ {O S X : Type 0} {obs : Db → O} where
  pub Preserves-for_each :
      (body : S → X → Tx S) (s : S) (xs : List X)
      → ((s : S) (x : X) → Preserves obs (body s x))
      → Preserves obs (for_each body s xs)
  unfolding for_each
  Preserves-for_each body s [] h = Preserves-pure s
  Preserves-for_each body s (x ∷ xs) h =
      Preserves-bind (body s x) _ (h s x) (λ s'. Preserves-for_each body s' xs h)
