-- ===== src/Endpoints/Review.antt =====
-- main.py: the endpoints that review a plan, with the identity of the reviewer and the HTTP errors.
-- `sys_user` is a table of the platform: the list of its ids. `seen` is the database when the plan
-- is read without a lock; other requests may commit before the service's transaction.
pub mod Requests
use Prim.Native.String.{count}
use water_info.Base.{
  ◌≡◌, refl, sym, ap, ◌∙◌, ℕ, ℤ, String, Bool, true, false, not, ◌||◌, Option, none, some, List, [],
  ◌∷◌, if◌then◌else◌, ◌==◌, string_eq, any, ltb, Bool-cases, Option-cases, inl, inr, arith,
}
use water_info.Base.Result.{Result, ok, err}
use water_info.Plan.Patch.{PlanPatch}
use water_info.Plan.Review.{
  find_plan, edit_draft, edit_approved, approve_plan, PlanResponse, ApproveResponse,
}
use water_info.Plan.Snapshot.{Runtime}
use water_info.Plan.Tables.{PlanStatus, draft, approved, PlanRow, Reviewer, Db, Sequences}
use water_info.Plan.Tx.{
  Error, plan_not_found, state_conflict, version_conflict, action_not_found, resource_not_found,
  notification_not_found, validation_failed, server_error,
}

-- The status and the `errorCode` of an HTTPException.
pub record ApiError : Type 0 where
  pub status_code : ℕ
  pub error_code : String

unfoldable pub api_error : ℕ → String → ApiError
api_error n code = record { status_code = n; error_code = code }

-- `_plan_review_http_error`, and the status 500 of other exceptions
unfoldable pub plan_review_http_error : Error → ApiError
unfolding api_error
plan_review_http_error plan_not_found = api_error 404 "PLAN_NOT_FOUND"
plan_review_http_error (state_conflict _ _) = api_error 409 "STATE_CONFLICT"
plan_review_http_error (version_conflict _ _) = api_error 409 "VERSION_CONFLICT"
plan_review_http_error (action_not_found _) = api_error 404 "ENTRY_NOT_FOUND"
plan_review_http_error (resource_not_found _) = api_error 404 "ENTRY_NOT_FOUND"
plan_review_http_error (notification_not_found _) = api_error 404 "ENTRY_NOT_FOUND"
plan_review_http_error (validation_failed _) = api_error 422 "VALIDATION_FAILED"
plan_review_http_error server_error = api_error 500 ""

-- `request.headers.get(...)`, "" without the header
pub record Headers : Type 0 where
  pub user_id : String
  pub username : String

unfoldable pub is_identity : Headers → Bool
is_identity h =
    not (
      h.user_id == ""
      || h.username == ""
      || ltb 255 (count h.user_id)
      || ltb 255 (count h.username))

unfoldable pub get_reviewer : List String → Headers → Result ApiError Reviewer
unfolding is_identity api_error any
get_reviewer users h =
    if not (is_identity h)
    then err (api_error 400 "MISSING_IDENTITY")
    else if not (any (λ u. u == h.user_id) users)
    then err (api_error 400 "UNKNOWN_REVIEWER")
    else ok (record { user_id = h.user_id; username = h.username })

-- What `int(version)` reads, or that it raises.
pub data Number : Type 0 where
  malformed : Number
  integer : ℤ → Number

pub data Body : Type 0 where
  patching : PlanPatch → Body
  approving : (opinion : Option String) → Body

pub record Request : Type 0 where
  pub headers : Headers
  pub plan_id : String
  pub version : Option Number
  pub body : Body

pub data Answer : Type 0 where
  plan : PlanResponse → Answer
  approval : ApproveResponse → Answer

module _ {A : Type 0} (answer : A → Answer) where
  -- A result of the service, answered.
  unfoldable pub respond : Result Error A × Db → Result ApiError Answer × Db
  unfolding plan_review_http_error
  respond (ok a, db) = (ok (answer a), db)
  respond (err e, db) = (err (plan_review_http_error e), db)

-- `body.get("opinion") or ""`
unfoldable pub or_blank : Option String → String
or_blank none = ""
or_blank (some s) = s

-- `int(version)` where the service is called; its exceptions are answered with status 500.
unfoldable pub with_int :
    Number → Db → (ℤ → Result ApiError Answer × Db) → Result ApiError Answer × Db
unfolding api_error
with_int malformed db body = (err (api_error 500 ""), db)
with_int (integer v) db body = body v

module _ (rt : Runtime) (now : ℕ) (users : List String) where
  -- `update_plan_content`, once the plan has been read
  unfoldable pub edit_by_status :
      String → Number → PlanPatch → Reviewer → Option PlanRow → Db → Result ApiError Answer × Db
  unfolding respond edit_draft edit_approved plan_review_http_error api_error with_int
  edit_by_status plan_id n patch reviewer none db = (err (api_error 404 "PLAN_NOT_FOUND"), db)
  edit_by_status plan_id n patch reviewer (some row) db = elim row.status [
    | draft ↦ with_int n db λ v. respond plan (edit_draft rt now plan_id v patch reviewer db)
    | approved ↦ with_int n db λ v. respond plan (edit_approved rt now plan_id v patch reviewer db)
    | _ ↦ (err (plan_review_http_error (state_conflict row.status (draft ∷ approved ∷ []))), db)
  ]

  unfoldable pub review_by :
      String → Body → Reviewer → Number → Db → Db → Result ApiError Answer × Db
  unfolding edit_by_status find_plan respond approve_plan or_blank with_int
  review_by plan_id (patching patch) reviewer n seen db =
      edit_by_status plan_id n patch reviewer (find_plan plan_id seen) db
  review_by plan_id (approving opinion) reviewer n seen db =
      with_int n db
        λ v. respond approval (approve_plan rt now plan_id v (or_blank opinion) reviewer db)

  unfoldable pub versioned :
      Request → Reviewer → Option Number → Db → Db → Result ApiError Answer × Db
  unfolding review_by api_error
  versioned r reviewer none seen db = (err (api_error 400 "BAD_VERSION"), db)
  versioned r reviewer (some n) seen db = review_by r.plan_id r.body reviewer n seen db

  unfoldable pub reviewed :
      Request → Result ApiError Reviewer → Db → Db → Result ApiError Answer × Db
  unfolding versioned
  reviewed r (err e) seen db = (err e, db)
  reviewed r (ok reviewer) seen db = versioned r reviewer r.version seen db

  -- `update_plan_content` and `approve_plan`
  unfoldable pub handle : Request → Db → Db → Result ApiError Answer × Db
  unfolding reviewed get_reviewer
  handle r seen db = reviewed r (get_reviewer users r.headers) seen db
