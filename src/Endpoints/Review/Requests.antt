-- ===== src/Endpoints/Review/Requests.antt =====
-- main.py: what the answers of the review endpoints say about the service's operations.
use mathlib.Core.Path.{subst}
use water_info.Base.{◌≡◌, refl, sym, ℕ, ℤ, String, Option, none, some, List}
use water_info.Base.Result.{Result, ok, err}
use water_info.Plan.Patch.{PlanPatch}
use water_info.Plan.Review.{
  edit_draft, edit_approved, approve_plan, find_plan, PlanResponse, ApproveResponse,
}
use water_info.Plan.Review.Operation.{
  Op, editing_draft, editing_approved, Step, edits_draft, edits_approved, approves,
}
use water_info.Plan.Review.Operation
use water_info.Plan.Review.Refusal.{
  Raised, draft_raised, approved_raised, approve_raised, Raised-atomic, Step-lost_update,
}
use water_info.Plan.Snapshot.{Runtime}
use water_info.Plan.Tables.{
  PlanStatus, draft, approved, executing, completed, failed, cancelled, PlanRow, Reviewer, Db,
  Sequences,
}
use water_info.Plan.Tx.{Error}
use water_info.Endpoints.Review.{
  ApiError, Number, malformed, integer, Body, patching, approving, Request, Answer, plan, approval,
  respond, or_blank, with_int, edit_by_status, review_by, versioned, reviewed, get_reviewer, handle,
}

-- What a request comes to: refused before the service is called, with nothing changed; an operation
-- of the service that returned; or one that raised. The reviewer is identified and the version is
-- the request's.
pub data Handled (rt : Runtime) (now : ℕ) (users : List String) (r : Request) (db : Db)
    : Result ApiError Answer → Db → Type 0 where
  refused : (e : ApiError) → Handled rt now users r db (err e) db
  served :
      (reviewer : Reviewer) (v : ℤ) (op : Op) (a : Answer) (after : Db)
      → get_reviewer users r.headers ≡ ok reviewer
      → r.version ≡ some (integer v)
      → Step rt now r.plan_id v reviewer op db after
      → Handled rt now users r db (ok a) after
  raised :
      (reviewer : Reviewer) (v : ℤ) (op : Op) (e : Error) (x : ApiError) (after : Db)
      → Raised rt now r.plan_id v reviewer e op db after
      → Handled rt now users r db (err x) after

module _ (rt : Runtime) (now : ℕ) (users : List String) (r : Request) (db : Db) where
  abbrev IsHandled : Result ApiError Answer × Db → Type 0
  IsHandled q = Handled rt now users r db q.0 q.1

  module _ (reviewer : Reviewer) (identified : get_reviewer users r.headers ≡ ok reviewer) where
    module _ (v : ℤ) (version : r.version ≡ some (integer v)) where
      draft-Handled :
          (patch : PlanPatch) (q : Result Error PlanResponse × Db)
          → edit_draft rt now r.plan_id v patch reviewer db ≡ q
          → IsHandled (respond plan q)
      unfolding respond
      draft-Handled patch (ok a, d) h =
          served reviewer v (editing_draft patch) _ d identified version
            (edits_draft patch db a d h)
      draft-Handled patch (err e, d) h =
          raised reviewer v (editing_draft patch) e _ d (draft_raised patch db d h)

      approved-Handled :
          (patch : PlanPatch) (q : Result Error PlanResponse × Db)
          → edit_approved rt now r.plan_id v patch reviewer db ≡ q
          → IsHandled (respond plan q)
      unfolding respond
      approved-Handled patch (ok a, d) h =
          served reviewer v (editing_approved patch) _ d identified version
            (edits_approved patch db a d h)
      approved-Handled patch (err e, d) h =
          raised reviewer v (editing_approved patch) e _ d (approved_raised patch db d h)

      approval-Handled :
          (opinion : String) (q : Result Error ApproveResponse × Db)
          → approve_plan rt now r.plan_id v opinion reviewer db ≡ q
          → IsHandled (respond approval q)
      unfolding respond
      approval-Handled opinion (ok a, d) h =
          served reviewer v (Operation.approving opinion) _ d identified version
            (approves opinion db a d h)
      approval-Handled opinion (err e, d) h =
          raised reviewer v (Operation.approving opinion) e _ d (approve_raised opinion db d h)

    with_int-Handled :
        (n : Number) (body : ℤ → Result ApiError Answer × Db)
        → r.version ≡ some n
        → ((v : ℤ) → r.version ≡ some (integer v) → IsHandled (body v))
        → IsHandled (with_int n db body)
    unfolding with_int
    with_int-Handled malformed body version each = refused _
    with_int-Handled (integer v) body version each = each v version

    edit-Handled :
        (n : Number) (patch : PlanPatch) (status : PlanStatus) (row : PlanRow)
        → row.status ≡ status
        → r.version ≡ some n
        → IsHandled (edit_by_status rt now users r.plan_id n patch reviewer (some row) db)
    unfolding edit_by_status
    edit-Handled n patch draft row h version =
        rw h (with_int-Handled n _ version λ v e. draft-Handled v e patch _ refl)
    edit-Handled n patch approved row h version =
        rw h (with_int-Handled n _ version λ v e. approved-Handled v e patch _ refl)
    edit-Handled n patch executing row h version = rw h (refused _)
    edit-Handled n patch completed row h version = rw h (refused _)
    edit-Handled n patch failed row h version = rw h (refused _)
    edit-Handled n patch cancelled row h version = rw h (refused _)

    found-Handled :
        (n : Number) (patch : PlanPatch) (o : Option PlanRow)
        → r.version ≡ some n
        → IsHandled (edit_by_status rt now users r.plan_id n patch reviewer o db)
    unfolding edit_by_status
    found-Handled n patch none version = refused _
    found-Handled n patch (some row) version = edit-Handled n patch row.status row refl version

    review-Handled :
        (seen : Db) (n : Number) (body : Body)
        → r.version ≡ some n
        → IsHandled (review_by rt now users r.plan_id body reviewer n seen db)
    unfolding review_by
    review-Handled seen n (patching patch) version =
        found-Handled n patch (find_plan r.plan_id seen) version
    review-Handled seen n (approving opinion) version =
        with_int-Handled n _ version λ v e. approval-Handled v e (or_blank opinion) _ refl

    version-Handled :
        (seen : Db) (o : Option Number)
        → r.version ≡ o
        → IsHandled (versioned rt now users r reviewer o seen db)
    unfolding versioned
    version-Handled seen none h = refused _
    version-Handled seen (some n) h = review-Handled seen n r.body h

  reviewed-Handled :
      (seen : Db) (who : Result ApiError Reviewer)
      → get_reviewer users r.headers ≡ who
      → IsHandled (reviewed rt now users r who seen db)
  unfolding reviewed
  reviewed-Handled seen (err e) h = refused e
  reviewed-Handled seen (ok reviewer) h = version-Handled reviewer h seen r.version refl

  handle-Handled :
      (seen : Db) (q : Result ApiError Answer × Db)
      → handle rt now users r seen db ≡ q
      → IsHandled q
  unfolding handle
  handle-Handled seen q h =
      subst (λ x. IsHandled x) h (reviewed-Handled seen (get_reviewer users r.headers) refl)

  Handled-err :
      (res : Result ApiError Answer) (after : Db) (x : ApiError)
      → Handled rt now users r db res after
      → res ≡ err x
      → (s : Sequences) × (after ≡ record db { seq = s })
  Handled-err res after x (refused e) h = (db.seq, refl)
  Handled-err res after x (served reviewer v op a d who version step) h = cc h
  Handled-err res after x (raised reviewer v op e y d raises) h =
      Raised-atomic rt now r.plan_id v reviewer op db d e raises

  -- The operation behind an answer of success.
  record IsServed (after : Db) : Type 0 where
    reviewer : Reviewer
    v : ℤ
    op : Op
    version : r.version ≡ some (integer v)
    step : Step rt now r.plan_id v reviewer op db after

  Handled-ok :
      (res : Result ApiError Answer) (after : Db) (a : Answer)
      → Handled rt now users r db res after
      → res ≡ ok a
      → IsServed after
  Handled-ok res after a (refused e) h = cc h
  Handled-ok res after a (served reviewer v op b d who version step) h = record {
    reviewer = reviewer;
    v = v;
    op = op;
    version = version;
    step = step;
  }
  Handled-ok res after a (raised reviewer v op e y d raises) h = cc h

-- A refused request, whoever refuses it, leaves every table as it was; only sequences may have moved.
pub handle-atomic :
    (rt : Runtime) (now : ℕ) (users : List String) (r : Request) (seen db after : Db) (x : ApiError)
    → handle rt now users r seen db ≡ (err x, after)
    → (s : Sequences) × (after ≡ record db { seq = s })
handle-atomic rt now users r seen db after x h =
    Handled-err rt now users r db (err x) after x (handle-Handled rt now users r db seen _ h) refl

-- Of two requests for a plan with the same version, at most one is answered with success, whatever
-- plan each has read before, whoever sends them and whether they edit or approve.
pub handle-lost_update :
    (rt rt' : Runtime) (now now' : ℕ) (users users' : List String) (r r' : Request)
    (seen seen' db after last : Db) (a a' : Answer)
    → r.plan_id ≡ r'.plan_id
    → r.version ≡ r'.version
    → handle rt now users r seen db ≡ (ok a, after)
    → ¬ (handle rt' now' users' r' seen' after ≡ (ok a', last))
handle-lost_update rt rt' now now' users users' r r' seen seen' db after last a a' same_plan same
      h =
    λ h'.
      let first =
        Handled-ok rt now users r db _ after a (handle-Handled rt now users r db seen _ h) refl in
      let second =
        Handled-ok rt' now' users' r' after _ last a'
          (handle-Handled rt' now' users' r' after seen' _ h') refl in
      let same_v : second.v ≡ first.v = cc (first.version, second.version, same) in
      Step-lost_update rt now r.plan_id first.v first.reviewer rt' now' second.reviewer first.op
        second.op db after last first.step
        (subst (λ p. Step rt' now' p first.v second.reviewer second.op after last) (sym same_plan)
          (subst (λ v. Step rt' now' r'.plan_id v second.reviewer second.op after last) same_v
            second.step))
