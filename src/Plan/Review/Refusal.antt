-- ===== src/Plan/Review/Refusal.antt =====
-- Calls of the review operations that are refused, and calls that succeed.
use Prim.Native.String.{count}
use water_info.Base.{
  ℕ, ℤ, pos, String, ◌≡◌, Bool, true, false, not, ◌&&◌, Option, none, some, [], ◌∷◌, string_eq,
  if◌then◌else◌, leb, ltb, arith, inl, inr, Bool-cases, sym, ◌∙◌,
}
use water_info.Base.Result.{err}
use water_info.Base.Int.{int_beq}
use water_info.Plan.Snapshot.{Runtime}
use water_info.Plan.Tables.{PlanStatus, draft, approved, PlanRow, Reviewer, Db, Sequences}
use water_info.Plan.Status.{status_beq}
use water_info.Plan.Tx.{
  Tx, Error, plan_not_found, state_conflict, version_conflict, validation_failed, transaction,
  raise, gets, require, pure, ◌>>=◌,
}
use water_info.Plan.Tx.Inversion.{transaction-err}
use water_info.Plan.Patch.{PlanPatch}
use water_info.Plan.Review.{
  find_plan, or_not_found, lock_plan, edit_draft, edit_draft_tx, edit_approved, edit_approved_tx,
  approve_tx, approve_plan,
}
use water_info.Plan.Review.Operation.{
  Op, editing_draft, editing_approved, approving, Step, Step-Moves, status_before,
}

-- Why a plan's row does not pass, in the order of the tests.
unfoldable pub refusal : PlanStatus → ℤ → Option PlanRow → Option Error
refusal allowed v none = some plan_not_found
refusal allowed v (some row) =
    if not (status_beq row.status allowed)
    then some (state_conflict row.status (allowed ∷ []))
    else if not (int_beq (pos row.version) v)
    then some (version_conflict row.version v)
    else none

refused :
    (o : Option PlanRow) (allowed : PlanStatus) (v : ℤ) (e : Error) (db : Db)
    → refusal allowed v o ≡ some e
    → (or_not_found o >>= λ row.
          require (status_beq row.status allowed) (state_conflict row.status (allowed ∷ []))
          >>= λ _. require (int_beq (pos row.version) v) (version_conflict row.version v) >>= λ _.
              pure row)
        db
      ≡ (err e, db)
unfolding refusal or_not_found raise pure require ◌>>=◌
refused none allowed v e db h = cc h
refused (some row) allowed v e db h = ground arith

lock_plan-refused :
    (p : String) (allowed : PlanStatus) (v : ℤ) (e : Error) (db : Db)
    → refusal allowed v (find_plan p db) ≡ some e
    → lock_plan p allowed v db ≡ (err e, db)
unfolding lock_plan ◌>>=◌ gets
lock_plan-refused p allowed v e db h = refused (find_plan p db) allowed v e db h

first_raises :
    {A B : Type 0} (m : Tx A) (f : A → Tx B) (e : Error) (db : Db)
    → m db ≡ (err e, db)
    → transaction (m >>= f) db ≡ (err e, db)
unfolding transaction ◌>>=◌
first_raises m f e db h = rw h

-- A call of the operation raised `e`.
pub data Raised (rt : Runtime) (now : ℕ) (p : String) (v : ℤ) (reviewer : Reviewer) (e : Error)
    : Op → Db → Db → Type 0 where
  draft_raised :
      (patch : PlanPatch) (db db' : Db)
      → edit_draft rt now p v patch reviewer db ≡ (err e, db')
      → Raised rt now p v reviewer e (editing_draft patch) db db'
  approved_raised :
      (patch : PlanPatch) (db db' : Db)
      → edit_approved rt now p v patch reviewer db ≡ (err e, db')
      → Raised rt now p v reviewer e (editing_approved patch) db db'
  approve_raised :
      (opinion : String) (db db' : Db)
      → approve_plan rt now p v opinion reviewer db ≡ (err e, db')
      → Raised rt now p v reviewer e (approving opinion) db db'

-- The opinion of an approval has between 1 and 500 characters once stripped.
unfoldable pub opinion_fits : Runtime → Op → Bool
opinion_fits rt (editing_draft patch) = true
opinion_fits rt (editing_approved patch) = true
opinion_fits rt (approving opinion) =
    let n = count (rt.strip opinion) in not (leb n 0) && not (ltb 500 n)

module _ (rt : Runtime) (now : ℕ) (p : String) (v : ℤ) (reviewer : Reviewer) where
  pub approve_plan-tx :
      (opinion : String) (db : Db)
      → opinion_fits rt (approving opinion) ≡ true
      → approve_plan rt now p v opinion reviewer db
        ≡ transaction (approve_tx rt now p v (rt.strip opinion) reviewer) db
  unfolding approve_plan opinion_fits
  approve_plan-tx opinion db h = ground arith

  -- An operation whose plan is missing, or not in the operation's status, or at another version,
  -- raises the error that says so, tested in this order, and changes nothing at all. For an
  -- approval the opinion has to have between 1 and 500 characters, since that is tested first.
  pub review-refused :
      (op : Op) (db : Db) (e : Error)
      → opinion_fits rt op ≡ true
      → refusal (status_before op) v (find_plan p db) ≡ some e
      → Raised rt now p v reviewer e op db db
  unfolding edit_draft edit_approved approve_plan edit_draft_tx edit_approved_tx approve_tx
  review-refused (editing_draft patch) db e f h =
      draft_raised patch db db
        (first_raises (lock_plan p draft v) _ e db (lock_plan-refused p draft v e db h))
  review-refused (editing_approved patch) db e f h =
      approved_raised patch db db
        (first_raises (lock_plan p approved v) _ e db (lock_plan-refused p approved v e db h))
  review-refused (approving opinion) db e f h = approve_raised opinion db db (
      approve_plan-tx opinion db f
      ∙ first_raises (lock_plan p draft v) _ e db (lock_plan-refused p draft v e db h))

  approve_plan-unfit :
      (opinion : String) (db : Db)
      → opinion_fits rt (approving opinion) ≡ false
      → approve_plan rt now p v opinion reviewer db ≡ (err (validation_failed ("opinion" ∷ [])), db)
  unfolding approve_plan opinion_fits raise
  approve_plan-unfit opinion db h = ground arith

  -- An operation that raises, at whatever point, leaves every table as it was. Only sequences may
  -- have moved.
  pub Raised-atomic :
      (op : Op) (db db' : Db) (e : Error)
      → Raised rt now p v reviewer e op db db'
      → (s : Sequences) × (db' ≡ record db { seq = s })
  unfolding edit_draft edit_approved approve_plan raise
  Raised-atomic op db db' e (draft_raised patch d d' h) =
      transaction-err (edit_draft_tx rt now p v patch reviewer) db e db' h
  Raised-atomic op db db' e (approved_raised patch d d' h) =
      transaction-err (edit_approved_tx rt now p v patch reviewer) db e db' h
  Raised-atomic op db db' e (approve_raised opinion d d' h) =
      elim (Bool-cases (opinion_fits rt (approving opinion))) [
        | inl fits ↦
            transaction-err (approve_tx rt now p v (rt.strip opinion) reviewer) db e db'
              (sym (approve_plan-tx opinion db fits) ∙ h)
        | inr bad ↦ (db.seq, cc (approve_plan-unfit opinion db bad, h))
      ]

  -- Of two operations on a plan that were given the same version, at most one succeeds: after one
  -- has, no other operation on the plan, by anyone and at any time, returns for that version.
  pub Step-lost_update :
      (rt' : Runtime) (now' : ℕ) (reviewer' : Reviewer) (op op' : Op) (db after last : Db)
      → Step rt now p v reviewer op db after
      → ¬ Step rt' now' p v reviewer' op' after last
  Step-lost_update rt' now' reviewer' op op' db after last s = λ t.
      let m = Step-Moves rt now p v reviewer op db after s in
      let m' = Step-Moves rt' now' p v reviewer' op' after last t in
      let same : m'.row.version ≡ m.next.version = cc (m.stays, m'.is_there) in
      ground (arith, same, m.counts, m.is_current, m'.is_current)
