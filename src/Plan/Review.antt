-- ===== src/Plan/Review.antt =====
-- services/plan_review.py: `edit_draft`, `edit_approved` and `approve`. `now` is NOW() of the
-- transaction.
pub mod Steps
pub mod Success
pub mod Rows
pub mod Operation
pub mod Trail
pub mod Refusal
pub mod Buffer
use Prim.Native.String.{count}
use water_info.Base.{
  ℕ, suc, ◌+◌, ℤ, pos, String, Bool, true, false, not, ◌&&◌, Option, none, some, List, [], ◌∷◌,
  ◌++◌, map, ◌==◌, if◌then◌else◌, keep, find, ltb, leb, string_eq, nat_eq,
}
use water_info.Base.Int.{is_int4, int_beq, int_leb}
use water_info.Base.Sort.{sort}
use water_info.Base.Result.{Result, ok, err}
use water_info.Plan.Snapshot.{Runtime, PlanSnapshot, ChangeEntry}
use water_info.Plan.Diff.{diff_plan}
use water_info.Plan.Tables.{
  PlanStatus, draft, approved, PlanRow, ActionRow, ResourceRow, NotificationRow, Reviewer,
  AuditRecord, AuditAction, approve, edit_after_approve, AuditChange, AuditDraft, Db, delete_where,
  update_where, varchar,
}
use water_info.Plan.Status.{status_beq}
use water_info.Plan.Tx.{
  Error, plan_not_found, state_conflict, version_conflict, validation_failed, server_error, Tx,
  pure, raise, gets, exec, require, transaction, ◌>>=◌, ◌>>◌,
}
use water_info.Plan.Patch.{PlanPatch, build_snapshot}
use water_info.Plan.Patch.Apply.{apply_patch}

-- SELECT ... FROM emergency_plan WHERE plan_id = $1
unfoldable pub find_plan : String → Db → Option PlanRow
unfolding find
find_plan plan_id db = find (λ r. r.plan_id == plan_id) db.plans

unfoldable pub or_not_found : Option PlanRow → Tx PlanRow
or_not_found none = raise plan_not_found
or_not_found (some row) = pure row

-- The row FOR UPDATE, the state gate and the version check.
unfoldable pub lock_plan : String → PlanStatus → ℤ → Tx PlanRow
unfolding find_plan or_not_found
lock_plan plan_id allowed version = do
  found ← gets (find_plan plan_id)
  row ← or_not_found found
  require (status_beq row.status allowed) (state_conflict row.status (allowed ∷ []))
  require (int_beq (pos row.version) version) (version_conflict row.version version)
  pure row

-- UPDATE emergency_plan SET ... WHERE plan_id = $n. The new version has to fit its column.
unfoldable pub update_plan : String → ℕ → (PlanRow → PlanRow) → Tx (Unit {0})
unfolding update_where
update_plan plan_id new_version set = do
  require (is_int4 (pos new_version)) server_error
  exec λ db. record db { plans = update_where (λ r. r.plan_id == plan_id) set db.plans }

-- The answer of `_build_plan_response`.
pub record PlanResponse : Type 0 where
  pub plan : Option PlanRow
  pub actions : List ActionRow
  pub resources : List ResourceRow
  pub notifications : List NotificationRow

unfoldable pub build_plan_response : String → Db → PlanResponse
unfolding find_plan sort keep
build_plan_response plan_id db = record {
  plan = find_plan plan_id db;
  actions =
      sort (λ a b. int_leb a.priority b.priority) (keep (λ r. r.plan_id == plan_id) db.actions);
  resources = sort (λ a b. leb a.id b.id) (keep (λ r. r.plan_id == plan_id) db.resources);
  notifications = sort (λ a b. leb a.id b.id) (keep (λ r. r.plan_id == plan_id) db.notifications);
}

abbrev pub reviewer_fits : Reviewer → Bool
reviewer_fits r = varchar 64 r.user_id && varchar 255 r.username

unfoldable pub paths_fit : List ChangeEntry → Bool
paths_fit [] = true
paths_fit (c ∷ cs) = varchar 255 c.field_path && paths_fit cs

-- The rows of plan_audit_draft for the changes of one edit.
unfoldable pub draft_rows : String → ℕ → Reviewer → List ChangeEntry → List AuditDraft
draft_rows plan_id now reviewer changes =
    map (λ c. record { plan_id = plan_id; buffered_at = now; reviewer = reviewer; change = c })
      changes

-- `if changes: await self._insert_audit_draft(...)`
unfoldable pub insert_audit_draft : String → ℕ → Reviewer → List ChangeEntry → Tx (Unit {0})
unfolding draft_rows
insert_audit_draft plan_id now reviewer [] = pure tt
insert_audit_draft plan_id now reviewer (c ∷ cs) = do
  require (reviewer_fits reviewer && paths_fit (c ∷ cs)) server_error
  exec
      λ db. record db { audit_drafts = db.audit_drafts ++ draft_rows plan_id now reviewer (c ∷ cs) }

-- INSERT INTO plan_audit_record ... RETURNING id
unfoldable pub insert_audit_record : (ℕ → AuditRecord) → Tx ℕ
insert_audit_record row = do
  audit_id ← gets λ db. db.seq.audit_id
  exec λ db. record db { seq = record db.seq { audit_id = audit_id + 1 } }
  require (reviewer_fits (row audit_id).reviewer) server_error
  exec λ db. record db { audit_records = db.audit_records ++ row audit_id ∷ [] }
  pure audit_id

-- INSERT INTO plan_audit_change, once for each entry
unfoldable pub insert_audit_changes : ℕ → List ChangeEntry → Tx (Unit {0})
insert_audit_changes audit_id changes = do
  require (paths_fit changes) server_error
  exec λ db. record db {
    audit_changes =
        db.audit_changes ++ map (λ c. record { audit_id = audit_id; change = c }) changes;
  }

-- {plan_id, status, version, audit_record_id}
pub record ApproveResponse : Type 0 where
  pub plan_id : String
  pub status : PlanStatus
  pub version : ℕ
  pub audit_record_id : ℕ

-- The rows of `ORDER BY buffered_at ASC`: rows of one edit have the same time, and stay in the order
-- in which the database comes to them.
unfoldable pub buffered_rows : String → Db → List AuditDraft
unfolding sort keep
buffered_rows plan_id db =
    sort (λ a b. leb a.buffered_at b.buffered_at)
      (db.scan (keep (λ d. d.plan_id == plan_id) db.audit_drafts))

unfoldable pub buffered : String → Db → List ChangeEntry
unfolding buffered_rows
buffered plan_id db = map (λ d. d.change) (buffered_rows plan_id db)

module _ (rt : Runtime) (now : ℕ) where
  unfoldable pub edit_draft_tx : String → ℤ → PlanPatch → Reviewer → Tx PlanResponse
  unfolding lock_plan build_snapshot apply_patch insert_audit_draft update_plan build_plan_response
  edit_draft_tx plan_id version patch reviewer = do
    row ← lock_plan plan_id draft version
    old_snapshot ← gets λ db. build_snapshot db plan_id row.summary
    new_snapshot ← apply_patch rt plan_id now old_snapshot patch
    insert_audit_draft plan_id now reviewer (diff_plan rt old_snapshot new_snapshot)
    update_plan plan_id (row.version + 1) λ r. record r {
      version = row.version + 1;
      summary = new_snapshot.summary;
      updated_at = now;
    }
    gets (build_plan_response plan_id)

  unfoldable pub edit_draft : String → ℤ → PlanPatch → Reviewer → Tx PlanResponse
  unfolding edit_draft_tx transaction
  edit_draft plan_id version patch reviewer =
      transaction (edit_draft_tx plan_id version patch reviewer)

  unfoldable pub edit_approved_tx : String → ℤ → PlanPatch → Reviewer → Tx PlanResponse
  unfolding lock_plan build_snapshot apply_patch update_plan insert_audit_record
      insert_audit_changes build_plan_response
  edit_approved_tx plan_id version patch reviewer = do
    row ← lock_plan plan_id approved version
    old_snapshot ← gets λ db. build_snapshot db plan_id row.summary
    new_snapshot ← apply_patch rt plan_id now old_snapshot patch
    update_plan plan_id (row.version + 1) λ r. record r {
      version = row.version + 1;
      summary = new_snapshot.summary;
      updated_at = now;
    }
    audit_id ← insert_audit_record λ id. record {
      id = id;
      plan_id = plan_id;
      action = edit_after_approve;
      reviewer = reviewer;
      reviewed_at = now;
      opinion = none;
      from_status = approved;
      to_status = approved;
      from_version = row.version;
      to_version = row.version + 1;
    }
    insert_audit_changes audit_id (diff_plan rt old_snapshot new_snapshot)
    gets (build_plan_response plan_id)

  unfoldable pub edit_approved : String → ℤ → PlanPatch → Reviewer → Tx PlanResponse
  unfolding edit_approved_tx transaction
  edit_approved plan_id version patch reviewer =
      transaction (edit_approved_tx plan_id version patch reviewer)

  unfoldable pub approve_tx : String → ℤ → String → Reviewer → Tx ApproveResponse
  unfolding lock_plan buffered insert_audit_record insert_audit_changes delete_where update_plan
  approve_tx plan_id version stripped_opinion reviewer = do
    row ← lock_plan plan_id draft version
    draft_entries ← gets (buffered plan_id)
    audit_id ← insert_audit_record λ id. record {
      id = id;
      plan_id = plan_id;
      action = approve;
      reviewer = reviewer;
      reviewed_at = now;
      opinion = some stripped_opinion;
      from_status = draft;
      to_status = approved;
      from_version = row.version;
      to_version = row.version + 1;
    }
    insert_audit_changes audit_id draft_entries
    exec λ db. record db { audit_drafts = delete_where (λ d. d.plan_id == plan_id) db.audit_drafts }
    update_plan plan_id (row.version + 1)
        λ r. record r { status = approved; version = row.version + 1; updated_at = now }
    pure (record {
      plan_id = plan_id;
      status = approved;
      version = row.version + 1;
      audit_record_id = audit_id;
    })

  unfoldable pub approve_plan : String → ℤ → String → Reviewer → Tx ApproveResponse
  unfolding approve_tx transaction
  approve_plan plan_id version opinion reviewer =
      let stripped = rt.strip opinion in
      if leb (count stripped) 0
      then raise (validation_failed ("opinion" ∷ []))
      else if ltb 500 (count stripped)
      then raise (validation_failed ("opinion" ∷ []))
      else transaction (approve_tx plan_id version stripped reviewer)
