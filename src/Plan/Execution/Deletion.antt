-- ===== src/Plan/Execution/Deletion.antt =====
-- The deletion of a plan, against the audit trail.
use water_info.Base.{
  ℕ, String, ◌≡◌, refl, false, none, some, List, [], ◌∷◌, ◌==◌, keep, any, find, string_eq, arith,
  inl, inr, Bool-cases,
}
use water_info.Base.Sort.{sort}
use water_info.Base.Result.{ok, err}
use water_info.Plan.Tables.{draft, approved, PlanRow, ActionRow, AuditRecord, Db, delete_where}
use water_info.Plan.Review.{find_plan}
use water_info.Plan.Review.Rows.{row_of}
use water_info.Plan.Review.Trail.{records_of, Audited, Chain, approval, edit}
use water_info.Plan.Execution.{internal_error, with_plan, delete_plan, cascade, get_plan_actions}

has_record :
    (p : String) (rs : List AuditRecord)
    → any (λ r. r.plan_id == p) rs ≡ false
    → records_of p rs ≡ []
unfolding any records_of keep
has_record p [] h = refl
has_record p (r ∷ rs) h = ground (arith, has_record p rs)

not_empty : {n : ℕ} (rs : List AuditRecord) → Chain rs n → ¬ (rs ≡ [])
not_empty rs (approval r a c) = λ e. cc
not_empty rs (edit [] r c a k) = λ e. cc
not_empty rs (edit (x ∷ xs) r c a k) = λ e. cc

-- An approved plan whose audit trail is in order cannot be deleted: the call answers with an
-- internal error and changes nothing.
pub delete_plan-approved :
    (p : String) (db : Db) (row : PlanRow)
    → Audited p db
    → find_plan p db ≡ some row
    → row.status ≡ approved
    → delete_plan p db ≡ (err internal_error, db)
unfolding delete_plan with_plan
delete_plan-approved p db row i there is_approved =
    elim (Bool-cases (any (λ r. r.plan_id == p) db.audit_records)) [
      | inl some_record ↦ rw (there, some_record) refl
      | inr no_record ↦
          elim (not_empty (records_of p db.audit_records) (i.of_approved row there is_approved)
            (has_record p db.audit_records no_record)) [ ]
    ]

deleted_rows :
    (p : String) (xs : List PlanRow) → row_of p (delete_where (λ r. r.plan_id == p) xs) ≡ none
unfolding delete_where keep find
deleted_rows p [] = refl
deleted_rows p (r ∷ xs) = ground (arith, deleted_rows p xs)

deleted_actions :
    (p : String) (xs : List ActionRow)
    → keep (λ r. r.plan_id == p) (delete_where (λ r. r.plan_id == p) xs) ≡ []
unfolding delete_where keep
deleted_actions p [] = refl
deleted_actions p (r ∷ xs) = ground (arith, deleted_actions p xs)

no_records :
    (p : String) (rs : List AuditRecord)
    → records_of p rs ≡ []
    → any (λ r. r.plan_id == p) rs ≡ false
unfolding any records_of keep
no_records p [] h = refl
no_records p (r ∷ rs) h = ground (arith, no_records p rs)

-- What a deletion leaves.
pub record Deleted (p : String) (db after : Db) : Type 0 where
  pub gone : find_plan p after ≡ none
  pub no_actions : get_plan_actions p after ≡ []
  pub same_records : after.audit_records ≡ db.audit_records
  pub same_changes : after.audit_changes ≡ db.audit_changes

pub cascade-Deleted : (p : String) (db : Db) → Deleted p db (cascade p db)
unfolding find_plan get_plan_actions cascade
cascade-Deleted p db = record {
  gone = deleted_rows p db.plans;
  no_actions = unfold sort in rw (deleted_actions p db.actions) refl;
  same_records = refl;
  same_changes = refl;
}

-- A draft whose audit trail is in order can be deleted: the call succeeds, the plan and its actions
-- are gone, and the audit trail is as before.
pub delete_plan-draft :
    (p : String) (db : Db) (row : PlanRow)
    → Audited p db
    → find_plan p db ≡ some row
    → row.status ≡ draft
    → (after : Db) × (delete_plan p db ≡ (ok tt, after)) × Deleted p db after
unfolding delete_plan with_plan
delete_plan-draft p db row i there is_draft = (
  cascade p db,
  rw (there, no_records p db.audit_records (i.of_draft row there is_draft)) refl,
  cascade-Deleted p db,
)
