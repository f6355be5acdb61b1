-- ===== src/Plan/Execution/Requests.antt =====
-- main.py: the endpoints about one plan, those that read it or delete it among them.
use water_info.Base.{
  ◌≡◌, refl, String, Bool, true, false, none, some, any, ◌==◌, string_eq, ◌≢◌, if◌then◌else◌, ◌⊎◌,
}
use water_info.Base.Result.{Result, ok, err}
use water_info.Plan.Tables.{draft, PlanRow, Db}
use water_info.Plan.Review.{find_plan}
use water_info.Plan.Execution.{
  HttpError, internal_error, PlanProgressResponse, get_plan_progress, delete_plan, cascade,
}
use water_info.Plan.Execution.Deletion.{Deleted, cascade-Deleted}
use water_info.Plan.Execution.Lifecycle.{Call, Turns, Call-Turns, with_plan-ok}

-- A request about the plan `p` that answered with success.
pub data Request (p : String) : Db → Db → Type 0 where
  changes : (db after : Db) → Call p db after → Request p db after
  inspects :
      (a : PlanProgressResponse) (db after : Db)
      → get_plan_progress p db ≡ (ok a, after)
      → Request p db after
  deletes : (db after : Db) → delete_plan p db ≡ (ok tt, after) → Request p db after

-- What becomes of the plan.
pub data Outcome (p : String) (db after : Db) : Type 0 where
  turned : Turns p db after → Outcome p db after
  untouched : (row : PlanRow) → find_plan p db ≡ some row → after ≡ db → Outcome p db after
  removed :
      (row : PlanRow)
      → find_plan p db ≡ some row
      → any (λ r. r.plan_id == p) db.audit_records ≡ false
      → Deleted p db after
      → Outcome p db after

inspects-Outcome :
    (p : String) (a : PlanProgressResponse) (db after : Db)
    → get_plan_progress p db ≡ (ok a, after)
    → Outcome p db after
unfolding get_plan_progress
inspects-Outcome p a db after h =
    let (row, there, same) = with_plan-ok _ db _ a after h in untouched row there (cc same)

unless-ok :
    (b : Bool) (db done after : Db)
    → ◌≡◌ {A = Result HttpError (Unit {0}) × Db}
        (if b then (err internal_error, db) else (ok tt, done))
        (ok tt, after)
    → (b ≡ false) × (after ≡ done)
unless-ok true db done after h = cc
unless-ok false db done after h = (refl, cc h)

deletes-Outcome :
    (p : String) (db after : Db) → delete_plan p db ≡ (ok tt, after) → Outcome p db after
unfolding delete_plan
deletes-Outcome p db after h =
    let (row, there, body) = with_plan-ok _ db _ tt after h in
    let (unrecorded, done) =
      unless-ok (any (λ r. r.plan_id == p) db.audit_records) db (cascade p db) after body in
    removed row there unrecorded (rw done (cascade-Deleted p db))

-- Every successful request about a plan, to execute, report on, cancel, edit, approve, inspect or
-- delete it, finds the plan. It moves the status along an arrow of `Allowed`, or is an inspection and
-- changes nothing, or deletes a plan without audit records, with its actions and not its trail.
pub Request-Outcome : (p : String) (db after : Db) → Request p db after → Outcome p db after
Request-Outcome p db after (changes d d' c) = turned (Call-Turns p db after c)
Request-Outcome p db after (inspects a d d' h) = inspects-Outcome p a db after h
Request-Outcome p db after (deletes d d' h) = deletes-Outcome p db after h

-- Any number of successful requests about a plan.
pub data Requests (p : String) : Db → Db → Type 0 where
  none_yet : (db : Db) → Requests p db db
  one_more : (db mid after : Db) → Requests p db mid → Request p mid after → Requests p db after

-- The plan was deleted, or is there and no draft.
abbrev pub NoDraft : String → Db → Type 0
NoDraft p db =
    (find_plan p db ≡ none) ⊎ ((row : PlanRow) × (find_plan p db ≡ some row) × (row.status ≢ draft))
