-- ===== src/Examples/Data.antt =====
-- A runtime, a reviewer and databases with one plan.
use water_info.Base.{ℕ, pos, String, none, some, List, [], ◌∷◌}
use water_info.Plan.Snapshot.{Runtime, ActionItem, PlanSnapshot}
use water_info.Plan.Tables.{
  PlanStatus, draft, approved, PlanRow, ActionRow, Reviewer, AuditRecord, approve, Db,
}
use water_info.Plan.Patch.{PlanPatch, absent, given, text, int}

abbrev pub runtime : Runtime
runtime = record { dumps = λ v. "{}"; show = λ n. "7"; strip = λ s. s; uuid8 = λ n. "0a1b2c3d" }

abbrev pub reviewer : Reviewer
reviewer = record { user_id = "u1"; username = "Li" }

abbrev pub row : PlanStatus → ℕ → PlanRow
row status version = record {
  plan_id = "P1";
  plan_name = "flood";
  risk_level = "high";
  trigger_conditions = "";
  status = status;
  session_id = "s";
  summary = "old";
  version = version;
  created_at = 1;
  updated_at = 1;
}

abbrev pub action : String → String → ActionRow
action id status = record {
  plan_id = "P1";
  action_id = id;
  action_type = "";
  description = "close the gate";
  priority = pos 1;
  responsible_dept = "";
  deadline_minutes = none;
  status = status;
  created_at = 1;
}

abbrev pub approval_record : AuditRecord
approval_record = record {
  id = 1;
  plan_id = "P1";
  action = approve;
  reviewer = reviewer;
  reviewed_at = 2;
  opinion = some "ok";
  from_status = draft;
  to_status = approved;
  from_version = 0;
  to_version = 1;
}

abbrev pub database : PlanStatus → ℕ → List AuditRecord → Db
database status version records = record {
  plans = row status version ∷ [];
  actions = action "a1" "pending" ∷ [];
  resources = [];
  notifications = [];
  audit_records = records;
  audit_changes = [];
  audit_drafts = [];
  scan = λ ds. ds;
  seq = record { resource_id = 1; notification_id = 1; audit_id = 1; uuids = 0 };
}

abbrev pub draft_db : Db
draft_db = database draft 0 []

-- A patch that writes a summary and adds an action.
abbrev pub patch : PlanPatch
patch = record {
  summary = given (text "new");
  actions = some (record {
    delete = "a1" ∷ [];
    upsert =
        record {
          camel_action_id = absent;
          action_id = absent;
          description = given "open the weir";
          priority = given (int (pos 2));
          assignee = absent;
          status = absent;
        }
        ∷ [];
  });
  resources = none;
  notifications = none;
}

abbrev pub old_snapshot : PlanSnapshot
old_snapshot = record { summary = "old"; actions = []; resources = []; notifications = [] }

abbrev pub action_item_one : ActionItem
action_item_one = record {
  action_id = "a1";
  description = "close the gate";
  priority = pos 1;
  assignee = "";
  status = "pending";
}

abbrev pub new_snapshot : PlanSnapshot
new_snapshot = record {
  summary = "old";
  actions = action_item_one ∷ [];
  resources = [];
  notifications = [];
}
