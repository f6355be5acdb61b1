-- ===== src/Examples/Execution.antt =====
-- The endpoints on a concrete plan.
use mathlib.Core.Path.{subst}
use water_info.Base.{◌≡◌, refl, some, [], ◌∷◌, string_eq}
use water_info.Base.Result.{ok, err}
use water_info.Plan.Tables.{PlanStatus, approved, executing, completed, PlanRow, Db}
use water_info.Plan.Review.{find_plan}
use water_info.Plan.Review.Trail.{records_of, Audited, Chain, approval}
use water_info.Plan.Execution.{
  internal_error, PlanExecuteResponse, execute_plan, delete_plan, status_from_actions,
  update_action_status_during_execution,
}
use water_info.Plan.Execution.Sync.{is_completed, is_pending, Asks, status_from_actions-Asks}
use water_info.Plan.Execution.Lifecycle.{executes}
use water_info.Plan.Execution.Requests.{Request, changes, Outcome, Request-Outcome, Requests}
use water_info.Plan.Execution.Deletion.{delete_plan-approved}
use water_info.Examples.Data.{row, database, draft_db, approval_record}

abbrev approved_db : Db
approved_db = database approved 1 (approval_record ∷ [])

abbrev executed : PlanExecuteResponse
executed = record { plan_id = "P1"; status = executing; executed_actions = 1 }

abbrev executing_db : Db
unfolding execute_plan
executing_db = (execute_plan 8 "P1" approved_db).1

execution_returns : execute_plan 8 "P1" approved_db ≡ (ok executed, executing_db)
unfolding execute_plan executing_db
execution_returns = refl

abbrev completed_db : Db
unfolding update_action_status_during_execution
completed_db = (update_action_status_during_execution 9 "P1" "a1" "completed" executing_db).1

abbrev completed_row : PlanRow
completed_row = record (row completed 1) { updated_at = 9 }

completed_found : find_plan "P1" completed_db ≡ some completed_row
unfolding find_plan completed_db update_action_status_during_execution executing_db execute_plan
completed_found = refl

executed-Request : Request "P1" approved_db executing_db
executed-Request =
    changes approved_db executing_db
      (executes 8 executed approved_db executing_db execution_returns)

Request-Outcome_example : Outcome "P1" approved_db executing_db
Request-Outcome_example = Request-Outcome "P1" approved_db executing_db executed-Request

approved_found : find_plan "P1" approved_db ≡ some (row approved 1)
unfolding find_plan
approved_found = refl

approved_db-Audited : Audited "P1" approved_db
unfolding find_plan records_of
approved_db-Audited = record {
  of_draft = λ r there is_draft. cc;
  of_approved = λ r there is_approved.
      subst (λ n. Chain (approval_record ∷ []) n) (cc there) (approval approval_record refl refl);
}

draft_db-Audited : Audited "P1" draft_db
unfolding find_plan records_of
draft_db-Audited = record {
  of_draft = λ r there is_draft. refl;
  of_approved = λ r there is_approved. cc;
}

delete_plan-approved_example : delete_plan "P1" approved_db ≡ (err internal_error, approved_db)
delete_plan-approved_example =
    delete_plan-approved "P1" approved_db (row approved 1) approved_db-Audited approved_found refl

status_from_actions-Asks_example :
    (status : PlanStatus) × (status_from_actions ("completed" ∷ "pending" ∷ []) ≡ some status)
    × Asks ("completed" ∷ "pending" ∷ []) status
status_from_actions-Asks_example =
    status_from_actions-Asks "completed" ("pending" ∷ []) (is_completed, (is_pending, tt))
