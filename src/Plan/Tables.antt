-- ===== src/Plan/Tables.antt =====
-- The plan tables of database.py (`ensure_plan_tables`) and the statements over them. A table is
-- the list of its rows in the order of insertion.
pub mod Views
use Prim.Native.String.{count}
use mathlib.Core.List.{Perm}
use water_info.Base.{
  ℕ, suc, ◌+◌, ℤ, String, Bool, true, false, not, ◌&&◌, Option, none, some, List, [], ◌∷◌, ◌++◌,
  map, if◌then◌else◌, keep, leb,
}
use water_info.Plan.Snapshot.{ChangeEntry}

-- The values that the code gives to `emergency_plan.status`.
pub data PlanStatus : Type 0 where
  draft approved executing completed failed cancelled : PlanStatus

pub record PlanRow : Type 0 where
  pub plan_id : String
  pub plan_name : String
  pub risk_level : String
  pub trigger_conditions : String
  pub status : PlanStatus
  pub session_id : String
  pub summary : String
  pub version : ℕ
  pub created_at : ℕ
  pub updated_at : ℕ

pub record ActionRow : Type 0 where
  pub plan_id : String
  pub action_id : String
  pub action_type : String
  pub description : String
  pub priority : ℤ
  pub responsible_dept : String
  pub deadline_minutes : Option ℤ
  pub status : String
  pub created_at : ℕ

pub record ResourceRow : Type 0 where
  pub id : ℕ
  pub plan_id : String
  pub resource_type : String
  pub resource_name : String
  pub quantity : ℤ
  pub source_location : String
  pub target_location : String
  pub eta_minutes : Option ℤ
  pub created_at : ℕ

pub record NotificationRow : Type 0 where
  pub id : ℕ
  pub plan_id : String
  pub target : String
  pub channel : String
  pub content : String
  pub status : String
  pub sent_at : Option ℕ
  pub created_at : ℕ

pub data AuditAction : Type 0 where
  approve edit_after_approve : AuditAction

pub record Reviewer : Type 0 where
  pub user_id : String
  pub username : String

pub record AuditRecord : Type 0 where
  pub id : ℕ
  pub plan_id : String
  pub action : AuditAction
  pub reviewer : Reviewer
  pub reviewed_at : ℕ
  pub opinion : Option String
  pub from_status : PlanStatus
  pub to_status : PlanStatus
  pub from_version : ℕ
  pub to_version : ℕ

pub record AuditChange : Type 0 where
  pub audit_id : ℕ
  pub change : ChangeEntry

pub record AuditDraft : Type 0 where
  pub plan_id : String
  pub buffered_at : ℕ
  pub reviewer : Reviewer
  pub change : ChangeEntry

-- The next values of the BIGSERIAL columns, and how many UUIDs have been drawn.
pub record Sequences : Type 0 where
  pub resource_id : ℕ
  pub notification_id : ℕ
  pub audit_id : ℕ
  pub uuids : ℕ

-- `scan` is the order in which rows of plan_audit_draft come to a sort. SQL leaves it open, so that it
-- can be any permutation (`IsScan`).
pub record Db : Type 0 where
  pub plans : List PlanRow
  pub actions : List ActionRow
  pub resources : List ResourceRow
  pub notifications : List NotificationRow
  pub audit_records : List AuditRecord
  pub audit_changes : List AuditChange
  pub audit_drafts : List AuditDraft
  pub scan : List AuditDraft → List AuditDraft
  pub seq : Sequences

abbrev pub IsScan : Db → Type 0
IsScan db = (ds : List AuditDraft) → Perm (db.scan ds) ds

-- DELETE ... WHERE p and UPDATE ... SET f WHERE p
module _ {A : Type 0} where
  unfoldable pub delete_where : (A → Bool) → List A → List A
  unfolding keep
  delete_where p rows = keep (λ r. not (p r)) rows

  unfoldable pub update_where : (A → Bool) → (A → A) → List A → List A
  update_where p f [] = []
  update_where p f (r ∷ rows) = (if p r then f r else r) ∷ update_where p f rows

-- A text fits a column VARCHAR(n).
unfoldable pub varchar : ℕ → String → Bool
varchar n s = leb (count s) n
