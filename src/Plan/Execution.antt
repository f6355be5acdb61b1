-- ===== src/Plan/Execution.antt =====
-- The plan endpoints of main.py outside the review: execution, progress, cancellation, deletion.
-- Each statement is a transaction of its own. `now` is NOW().
pub mod Sync
pub mod Lifecycle
pub mod Requests
pub mod Deletion
use water_info.Base.{
  ℕ, suc, String, Bool, true, false, not, ◌&&◌, ◌||◌, Option, none, some, List, [], ◌∷◌, map, ◌==◌,
  if◌then◌else◌, keep, any, all, length, string_eq, nat_eq,
}
use water_info.Base.Int.{int_leb}
use water_info.Base.Sort.{sort}
use water_info.Base.Result.{Result, ok, err}
use water_info.Plan.Tables.{
  PlanStatus, draft, approved, executing, completed, failed, cancelled, PlanRow, ActionRow, Db,
  AuditRecord, delete_where, update_where,
}
use water_info.Plan.Status.{status_beq}
use water_info.Plan.Review.{find_plan}

-- The HTTP errors of the endpoints.
pub data HttpError : Type 0 where
  bad_request not_found conflict internal_error : HttpError

unfoldable pub update_plan_status : ℕ → String → PlanStatus → Db → Db
unfolding update_where
update_plan_status now plan_id status db = record db {
  plans =
      update_where (λ r. r.plan_id == plan_id) (λ r. record r { status = status; updated_at = now })
        db.plans;
}

-- SELECT ... FROM emergency_action WHERE plan_id = $1 ORDER BY priority ASC
unfoldable pub get_plan_actions : String → Db → List ActionRow
unfolding sort keep
get_plan_actions plan_id db =
    sort (λ a b. int_leb a.priority b.priority) (keep (λ r. r.plan_id == plan_id) db.actions)

unfoldable pub update_action_status : String → String → String → Db → Db
unfolding update_where
update_action_status plan_id action_id status db = record db {
  actions =
      update_where (λ r. r.plan_id == plan_id && r.action_id == action_id)
        (λ r. record r { status = status }) db.actions;
}

unfoldable pub reset_plan_actions : String → Db → Db
unfolding update_where
reset_plan_actions plan_id db = record db {
  actions =
      update_where (λ r. r.plan_id == plan_id) (λ r. record r { status = "pending" }) db.actions;
}

-- `_sync_plan_status_from_actions`: the status that the actions' statuses ask for, if any.
abbrev pub is_open : String → Bool
is_open s = s == "pending" || s == "in_progress"

unfoldable pub status_from_actions : List String → Option PlanStatus
unfolding any all
status_from_actions [] = none
status_from_actions (s ∷ ss) =
    if all (λ t. t == "completed") (s ∷ ss)
    then some completed
    else if any (λ t. t == "failed") (s ∷ ss) && not (any is_open (s ∷ ss))
    then some failed
    else if any is_open (s ∷ ss)
    then some executing
    else none

unfoldable pub update_if_some : ℕ → String → Option PlanStatus → Db → Db
unfolding update_plan_status
update_if_some now plan_id none db = db
update_if_some now plan_id (some status) db = update_plan_status now plan_id status db

unfoldable pub sync_plan_status_from_actions : ℕ → String → Db → Db
unfolding update_if_some status_from_actions get_plan_actions
sync_plan_status_from_actions now plan_id db =
    update_if_some now plan_id
      (status_from_actions (map (λ a. a.status) (get_plan_actions plan_id db))) db

-- `plan = await db.get_emergency_plan(plan_id)`, and 404 where there is none
module _ {A : Type 0} where
  unfoldable pub with_plan :
      Option PlanRow → Db → (PlanRow → Result HttpError A × Db) → Result HttpError A × Db
  with_plan none db body = (err not_found, db)
  with_plan (some plan) db body = body plan

-- {plan_id, status, executed_actions}
pub record PlanExecuteResponse : Type 0 where
  pub plan_id : String
  pub status : PlanStatus
  pub executed_actions : ℕ

-- `status in ("approved", "failed", "cancelled")`
abbrev pub may_execute : PlanStatus → Bool
may_execute approved = true
may_execute failed = true
may_execute cancelled = true
may_execute _ = false

-- `if status in ("failed", "cancelled"): await db.reset_plan_actions(plan_id)`
unfoldable pub reset_on_rerun : PlanStatus → String → Db → Db
unfolding reset_plan_actions
reset_on_rerun failed plan_id db = reset_plan_actions plan_id db
reset_on_rerun cancelled plan_id db = reset_plan_actions plan_id db
reset_on_rerun _ plan_id db = db

module _ (now : ℕ) where
  unfoldable pub execute_plan : String → Db → Result HttpError PlanExecuteResponse × Db
  unfolding with_plan find_plan reset_on_rerun update_plan_status get_plan_actions
  execute_plan plan_id db = with_plan (find_plan plan_id db) db λ plan.
      let after =
        update_plan_status now plan_id executing (reset_on_rerun plan.status plan_id db) in
      if not (may_execute plan.status) then (err conflict, db) else (
        ok (record {
          plan_id = plan_id;
          status = executing;
          executed_actions = length (get_plan_actions plan_id after);
        }),
        after,
      )

  -- `new_status in ("pending", "in_progress", "completed", "failed")`
  abbrev pub is_action_status : String → Bool
  is_action_status s = s == "pending" || (s == "in_progress" || (s == "completed" || s == "failed"))

  unfoldable pub update_action_status_during_execution :
      String → String → String → Db → Result HttpError (Unit {0}) × Db
  unfolding with_plan find_plan update_action_status sync_plan_status_from_actions
  update_action_status_during_execution plan_id action_id new_status db =
      if not (is_action_status new_status)
      then (err bad_request, db)
      else with_plan (find_plan plan_id db) db λ plan.
        if not (status_beq plan.status executing) then (err conflict, db) else (
          ok tt,
          sync_plan_status_from_actions now plan_id
              (update_action_status plan_id action_id new_status db),
        )

  unfoldable pub cancel_plan : String → Db → Result HttpError (Unit {0}) × Db
  unfolding with_plan find_plan update_plan_status
  cancel_plan plan_id db = with_plan (find_plan plan_id db) db λ plan.
      if not (status_beq plan.status executing)
      then (err conflict, db)
      else (ok tt, update_plan_status now plan_id cancelled db)

pub record PlanProgressResponse : Type 0 where
  pub plan_status : PlanStatus
  pub actions : List ActionRow
  pub total : ℕ
  pub completed_actions : ℕ
  pub failed_actions : ℕ

unfoldable pub get_plan_progress : String → Db → Result HttpError PlanProgressResponse × Db
unfolding with_plan find_plan get_plan_actions keep
get_plan_progress plan_id db = with_plan (find_plan plan_id db) db λ plan.
    let actions = get_plan_actions plan_id db in
    (
      ok (record {
        plan_status = plan.status;
        actions = actions;
        total = length actions;
        completed_actions = length (keep (λ a. a.status == "completed") actions);
        failed_actions = length (keep (λ a. a.status == "failed") actions);
      }),
      db,
    )

-- DELETE FROM emergency_plan, with ON DELETE CASCADE.
unfoldable pub cascade : String → Db → Db
unfolding delete_where
cascade plan_id db = record db {
  plans = delete_where (λ r. r.plan_id == plan_id) db.plans;
  actions = delete_where (λ r. r.plan_id == plan_id) db.actions;
  resources = delete_where (λ r. r.plan_id == plan_id) db.resources;
  notifications = delete_where (λ r. r.plan_id == plan_id) db.notifications;
  audit_drafts = delete_where (λ d. d.plan_id == plan_id) db.audit_drafts;
}

-- The cascade reaches plan_audit_record, whose BEFORE DELETE trigger raises, so that the statement
-- fails where the plan has a record there. A row of plan_audit_change belongs to a record.
unfoldable pub delete_plan : String → Db → Result HttpError (Unit {0}) × Db
unfolding with_plan find_plan any cascade
delete_plan plan_id db = with_plan (find_plan plan_id db) db λ plan.
    if any (λ r. r.plan_id == plan_id) db.audit_records
    then (err internal_error, db)
    else (ok tt, cascade plan_id db)
