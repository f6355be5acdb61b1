-- ===== src/Plan/Execution/Lifecycle.antt =====
-- The life of a plan: the statuses it goes through under every endpoint that changes it.
use mathlib.Core.Option
use water_info.Base.{
  ℕ, ℤ, String, ◌≡◌, refl, ap, ◌∙◌, ◌≢◌, Bool, true, false, not, Option, none, some, List, map,
  if◌then◌else◌, string_eq, arith, inl, inr, Bool-cases,
}
use water_info.Base.Result.{Result, ok, err}
use water_info.Plan.Snapshot.{Runtime}
use water_info.Plan.Tables.{
  PlanStatus, draft, approved, executing, completed, failed, cancelled, PlanRow, Reviewer, Db,
}
use water_info.Plan.Status.{status_beq, status_beq_iff}
use water_info.Plan.Review.{find_plan}
use water_info.Plan.Review.Rows.{row_of, row_of-updated}
use water_info.Plan.Review.Operation.{
  Op, editing_draft, editing_approved, approving, Step, Step-Moves, status_before, status_after,
}
use water_info.Plan.Execution.{
  HttpError, conflict, PlanExecuteResponse, with_plan, may_execute, update_plan_status,
  update_action_status, reset_plan_actions, reset_on_rerun, update_if_some, status_from_actions,
  sync_plan_status_from_actions, get_plan_actions, execute_plan,
  update_action_status_during_execution, cancel_plan, is_action_status,
}

-- The changes of status that the code makes.
pub data Allowed : PlanStatus → PlanStatus → Type 0 where
  editing : Allowed draft draft
  approval : Allowed draft approved
  late_edit : Allowed approved approved
  starting : Allowed approved executing
  retry : Allowed failed executing
  resume : Allowed cancelled executing
  progress : Allowed executing executing
  success : Allowed executing completed
  failure : Allowed executing failed
  cancelling : Allowed executing cancelled

-- An execution, a report, a cancellation, an edit or an approval of the plan `p` that answered with
-- success.
pub data Call (p : String) : Db → Db → Type 0 where
  executes :
      (now : ℕ) (a : PlanExecuteResponse) (db after : Db)
      → execute_plan now p db ≡ (ok a, after)
      → Call p db after
  reports :
      (now : ℕ) (action_id status : String) (db after : Db)
      → update_action_status_during_execution now p action_id status db ≡ (ok tt, after)
      → Call p db after
  cancels : (now : ℕ) (db after : Db) → cancel_plan now p db ≡ (ok tt, after) → Call p db after
  reviews :
      (rt : Runtime) (now : ℕ) (v : ℤ) (reviewer : Reviewer) (op : Op) (db after : Db)
      → Step rt now p v reviewer op db after
      → Call p db after

module _ {A : Type 0} where
  pub with_plan-ok :
      (o : Option PlanRow) (db : Db) (body : PlanRow → Result HttpError A × Db) (a : A) (after : Db)
      → with_plan o db body ≡ (ok a, after)
      → (row : PlanRow) × (o ≡ some row) × (body row ≡ (ok a, after))
  unfolding with_plan
  with_plan-ok none db body a after h = cc
  with_plan-ok (some row) db body a after h = (row, refl, h)

  pub guarded-ok :
      (b : Bool) (e : HttpError) (db : Db) (x a : A) (done after : Db)
      → ◌≡◌ {A = Result HttpError A × Db}
          (if not b then (err e, db) else (ok x, done))
          (ok a, after)
      → (b ≡ true) × (after ≡ done)
  guarded-ok true e db x a done after h = (refl, cc h)
  guarded-ok false e db x a done after h = cc

-- The row of the plan after a change of its status.
pub record Turns (p : String) (db after : Db) : Type 0 where
  pub row : PlanRow
  pub is_there : find_plan p db ≡ some row
  pub next : PlanRow
  pub stays : find_plan p after ≡ some next
  pub allowed : Allowed row.status next.status

abbrev set_status : ℕ → PlanStatus → PlanRow → PlanRow
set_status now s r = record r { status = s; updated_at = now }

status_set :
    (now : ℕ) (p : String) (s : PlanStatus) (db before : Db) (row : PlanRow)
    → find_plan p db ≡ some row
    → before.plans ≡ db.plans
    → find_plan p (update_plan_status now p s before) ≡ some (set_status now s row)
unfolding update_plan_status find_plan
status_set now p s db before row there same =
    row_of-updated p (set_status now s) (λ r. refl) before.plans
    ∙ ap (λ rows. Option.map (set_status now s) (row_of p rows)) same
    ∙ ap (Option.map (set_status now s)) there

reset_on_rerun-plans :
    (s : PlanStatus) (p : String) (db : Db) → (reset_on_rerun s p db).plans ≡ db.plans
unfolding reset_on_rerun reset_plan_actions
reset_on_rerun-plans draft p db = refl
reset_on_rerun-plans approved p db = refl
reset_on_rerun-plans executing p db = refl
reset_on_rerun-plans completed p db = refl
reset_on_rerun-plans failed p db = refl
reset_on_rerun-plans cancelled p db = refl

may_execute-Allowed : (s : PlanStatus) → may_execute s ≡ true → Allowed s executing
may_execute-Allowed draft h = cc
may_execute-Allowed approved h = starting
may_execute-Allowed executing h = cc
may_execute-Allowed completed h = cc
may_execute-Allowed failed h = retry
may_execute-Allowed cancelled h = resume

execute_plan-Turns :
    (now : ℕ) (p : String) (a : PlanExecuteResponse) (db after : Db)
    → execute_plan now p db ≡ (ok a, after)
    → Turns p db after
unfolding execute_plan
execute_plan-Turns now p a db after h =
    let (row, there, h₁) = with_plan-ok _ db _ a after h in
    let (may, done) = guarded-ok (may_execute row.status) conflict db _ a _ after h₁ in
    record {
      row = row;
      is_there = there;
      next = record row { status = executing; updated_at = now };
      stays =
          ap (find_plan p) done
          ∙ status_set now p executing db (reset_on_rerun row.status p db) row there
              (reset_on_rerun-plans row.status p db);
      allowed = may_execute-Allowed row.status may;
    }

cancel_plan-Turns :
    (now : ℕ) (p : String) (db after : Db)
    → cancel_plan now p db ≡ (ok tt, after)
    → Turns p db after
unfolding cancel_plan
cancel_plan-Turns now p db after h =
    let (row, there, h₁) = with_plan-ok _ db _ tt after h in
    let (may, done) = guarded-ok (status_beq row.status executing) conflict db tt tt _ after h₁ in
    let was : row.status ≡ executing = (status_beq_iff row.status executing).0 may in
    record {
      row = row;
      is_there = there;
      next = record row { status = cancelled; updated_at = now };
      stays = ap (find_plan p) done ∙ status_set now p cancelled db db row there refl;
      allowed = rw was cancelling;
    }

-- A report that is taken leaves the plan executing, or moves it to the status that the actions ask
-- for.
synced :
    (now : ℕ) (p : String) (o : Option PlanStatus) (db before : Db) (row : PlanRow)
    → find_plan p db ≡ some row
    → before.plans ≡ db.plans
    → ((s : PlanStatus) → o ≡ some s → Allowed row.status s)
    → Allowed row.status row.status
    → Turns p db (update_if_some now p o before)
unfolding update_if_some
synced now p none db before row there same asked idle = record {
  row = row;
  is_there = there;
  next = row;
  stays = unfold find_plan in ap (row_of p) same ∙ there;
  allowed = idle;
}
synced now p (some s) db before row there same asked idle = record {
  row = row;
  is_there = there;
  next = set_status now s row;
  stays = status_set now p s db before row there same;
  allowed = asked s refl;
}

asked-Allowed :
    (ss : List String) (s : PlanStatus) → status_from_actions ss ≡ some s → Allowed executing s
unfolding status_from_actions
asked-Allowed ss draft h = ground arith
asked-Allowed ss approved h = ground arith
asked-Allowed ss executing h = progress
asked-Allowed ss completed h = success
asked-Allowed ss failed h = failure
asked-Allowed ss cancelled h = ground arith

reports-Turns :
    (now : ℕ) (p action_id status : String) (db after : Db)
    → update_action_status_during_execution now p action_id status db ≡ (ok tt, after)
    → Turns p db after
unfolding update_action_status_during_execution sync_plan_status_from_actions update_action_status
reports-Turns now p action_id status db after h = elim (Bool-cases (is_action_status now status)) [
  | inr bad ↦ cc (rw bad at h)
  | inl good ↦
      let (row, there, h₁) = with_plan-ok _ db _ tt after (rw good at h) in
      let (runs, done) =
        guarded-ok (status_beq row.status executing) conflict db tt tt _ after h₁ in
      let was : row.status ≡ executing = (status_beq_iff row.status executing).0 runs in
      rw done (
        synced now p _ db _ row there refl
          (λ s e. rw was (
            asked-Allowed
              (map (λ a. a.status)
                (get_plan_actions p (update_action_status p action_id status db)))
              s e))
          (rw was progress))
]

Step-Turns :
    (rt : Runtime) (now : ℕ) (p : String) (v : ℤ) (reviewer : Reviewer) (op : Op) (db after : Db)
    → Step rt now p v reviewer op db after
    → Turns p db after
Step-Turns rt now p v reviewer op db after s =
    let m = Step-Moves rt now p v reviewer op db after s in
    record {
      row = m.row;
      is_there = m.is_there;
      next = m.next;
      stays = m.stays;
      allowed = rw (m.allows, m.has) (reviewed op);
    }
  where
    reviewed : (op : Op) → Allowed (status_before op) (status_after op)
    reviewed (editing_draft patch) = editing
    reviewed (editing_approved patch) = late_edit
    reviewed (approving opinion) = approval

-- Every execution, report, cancellation, edit or approval of a plan that succeeds finds the plan, and
-- moves its status along an arrow of `Allowed`.
pub Call-Turns : (p : String) (db after : Db) → Call p db after → Turns p db after
Call-Turns p db after (executes now a d d' h) = execute_plan-Turns now p a db after h
Call-Turns p db after (reports now action_id status d d' h) =
    reports-Turns now p action_id status db after h
Call-Turns p db after (cancels now d d' h) = cancel_plan-Turns now p db after h
Call-Turns p db after (reviews rt now v reviewer op d d' s) =
    Step-Turns rt now p v reviewer op db after s

ends : (s t : PlanStatus) → Allowed s t → s ≢ completed
ends s t editing = λ e. cc
ends s t approval = λ e. cc
ends s t late_edit = λ e. cc
ends s t starting = λ e. cc
ends s t retry = λ e. cc
ends s t resume = λ e. cc
ends s t progress = λ e. cc
ends s t success = λ e. cc
ends s t failure = λ e. cc
ends s t cancelling = λ e. cc

-- No execution, report, cancellation, edit or approval of a completed plan succeeds.
pub Call-completed :
    (p : String) (db after : Db) (row : PlanRow)
    → find_plan p db ≡ some row
    → row.status ≡ completed
    → ¬ Call p db after
Call-completed p db after row there done = λ c.
    let t = Call-Turns p db after c in
    let same : row ≡ t.row = cc (there, t.is_there) in
    ends t.row.status t.next.status t.allowed (rw (← same) done)
