-- ===== src/Endpoints/Approval.antt =====
-- main.py: how an interrupted turn of `flood_query` is stored, and `resolve_approval`. The record of
-- the decision is not part of the answer, and its exceptions are caught; it is left out.
pub mod Races
use Prim.Native.String
use water_info.Base.{
  ◌≡◌, refl, ℕ, String, Bool, true, false, not, Option, none, some, List, if◌then◌else◌, ◌==◌,
  string_eq,
}
use water_info.Base.Result.{Result, ok, err}
use water_info.Platform.Approvals.{
  PendingApprovalRow, Payload, get, insert_pending, cas_resolve, cas_resolve-pending, resolved,
  HasKey,
}
use water_info.Routing.State.{Next, unset, interrupt, to, HumanReview, State}
use water_info.Routing.Agents.{end}

pub data Decision : Type 0 where
  approve reject modify : Decision

unfoldable pub decision_text : Decision → String
decision_text approve = "approve"
decision_text reject = "reject"
decision_text modify = "modify"

-- `body.decision + "d"` for an approval, `body.decision + "ed"` for the others
unfoldable pub new_status : Decision → String
unfolding decision_text
new_status approve = String.◌++◌ "approve" "d"
new_status d = String.◌++◌ (decision_text d) "ed"

-- `ApprovalRequest`; no override is `none`.
pub record ApprovalRequest : Type 0 where
  pub decision : Decision
  pub comment : String
  pub override_next_agent : Option Next

unfoldable pub resolution_of : ApprovalRequest → String
unfolding decision_text
resolution_of body =
    if body.comment == ""
    then decision_text body.decision
    else String.◌++◌ (decision_text body.decision) (String.◌++◌ ": " body.comment)

pub record ApprovalResponse : Type 0 where
  pub status : String
  pub approval_id : String
  pub resolution : String

-- The input with which the graph is run again.
pub record ResumeState : Type 0 where
  pub session_id : String
  pub next_agent : Next
  pub human_review : HumanReview

pub data ApprovalError : Type 0 where
  hitl_disabled not_found : ApprovalError
  already : (status : String) → ApprovalError
  already_resolved : ApprovalError

unfoldable pub review_of : String → String → HumanReview
review_of id status = record { approval_id = id; status = status; original_next_agent = none }

unfoldable pub original_next : Payload → Next
original_next p = elim p.original_next_agent [ none ↦ to end | some n ↦ n ]

unfoldable pub approved_state : PendingApprovalRow → ResumeState
unfolding original_next review_of
approved_state row = record {
  session_id = row.session_id;
  next_agent = original_next row.payload_json;
  human_review = review_of row.approval_id "approved";
}

-- The three branches that build `resume_state`
unfoldable pub resume_state : ApprovalRequest → PendingApprovalRow → ResumeState
unfolding approved_state review_of
resume_state body row = elim body.decision [
  | reject ↦ record {
    session_id = row.session_id;
    next_agent = to end;
    human_review = review_of row.approval_id "rejected";
  }
  | modify ↦ elim body.override_next_agent [
    | none ↦ approved_state row
    | some next ↦ record {
      session_id = row.session_id;
      next_agent = next;
      human_review = review_of row.approval_id "modified";
    }
  ]
  | approve ↦ approved_state row
]

-- The answer, the table, and the input of the graph's run, if there is one.
pub record Resolved : Type 0 where
  pub answer : Result ApprovalError ApprovalResponse
  pub table : List PendingApprovalRow
  pub resumed : Option ResumeState

unfoldable pub refuse : ApprovalError → List PendingApprovalRow → Resolved
refuse e table = record { answer = err e; table = table; resumed = none }

-- after `cas_resolve`
unfoldable pub conclude :
    String → ApprovalRequest → PendingApprovalRow → Bool → List PendingApprovalRow → Resolved
unfolding refuse new_status resolution_of resume_state
conclude id body row updated table = if not updated then refuse already_resolved table else record {
  answer = ok (record {
    status = new_status body.decision;
    approval_id = id;
    resolution = resolution_of body;
  });
  table = table;
  resumed = some (resume_state body row);
}

-- The first statements of `resolve_approval`, which read the row: an error, or the row that was read.
pub data Checked : Type 0 where
  refused : (e : ApprovalError) → Checked
  proceeds : (row : PendingApprovalRow) → Checked

unfoldable pub check_row : Option PendingApprovalRow → Checked
check_row none = refused not_found
check_row (some row) =
    if not (row.status == "pending") then refused (already row.status) else proceeds row

unfoldable pub check_approval : Bool → String → List PendingApprovalRow → Checked
unfolding get check_row
check_approval hitl_enabled id table =
    if not hitl_enabled then refused hitl_disabled else check_row (get id table)

-- The statements after them, over the table as it is by then: other requests may have run since.
unfoldable pub commit_approval :
    ℕ → String → ApprovalRequest → PendingApprovalRow → List PendingApprovalRow → Resolved
unfolding cas_resolve new_status resolution_of conclude
commit_approval now id body row table =
    let (updated, after) =
      cas_resolve now id (new_status body.decision) (resolution_of body) "" table in
    conclude id body row updated after

unfoldable pub after_check :
    ℕ → String → ApprovalRequest → List PendingApprovalRow → Checked → Resolved
unfolding refuse commit_approval
after_check now id body table (refused e) = refuse e table
after_check now id body table (proceeds row) = commit_approval now id body row table

-- A request with no other between its two statements.
unfoldable pub resolve_approval :
    Bool → ℕ → String → ApprovalRequest → List PendingApprovalRow → Resolved
unfolding after_check check_approval
resolve_approval hitl_enabled now id body table =
    after_check now id body table (check_approval hitl_enabled id table)

unfoldable pub or_empty : Option Next → Next
or_empty none = unset
or_empty (some n) = n

-- The row of an interrupted turn (`flood_query` and its streaming twin).
unfoldable pub pending_row : String → String → String → HumanReview → PendingApprovalRow
unfolding or_empty
pending_row id session_id query review = record {
  approval_id = id;
  session_id = session_id;
  agent_run_id = "";
  approval_type = "critical_action_review";
  payload_json = record {
    original_next_agent = some (or_empty review.original_next_agent);
    query = query;
  };
  status = "pending";
  created_at = 0;
  resolved_at = none;
  resolved_by = none;
  resolution = none;
}

-- `human_review.get("approval_id") or uuid4()`; without a review every key of it is missing.
unfoldable pub store_review :
    String → State → List PendingApprovalRow → Option HumanReview → List PendingApprovalRow
unfolding pending_row insert_pending review_of
store_review new_uuid s table none =
    (insert_pending (pending_row new_uuid s.session_id s.user_query (review_of "" "")) table).1
store_review new_uuid s table (some review) =
    let id = if review.approval_id == "" then new_uuid else review.approval_id in
    (insert_pending (pending_row id s.session_id s.user_query review) table).1

-- What an interrupted turn stores; an exception of the insert is caught.
unfoldable pub store_interrupt : String → State → List PendingApprovalRow → List PendingApprovalRow
unfolding store_review
store_interrupt new_uuid s table = elim s.next_agent [
  | interrupt ↦ store_review new_uuid s table s.human_review
  | _ ↦ table
]

-- The input of a run replaces keys of the thread's state.
unfoldable pub with_resume : ResumeState → State → State
with_resume r s = record s {
  session_id = r.session_id;
  next_agent = r.next_agent;
  human_review = some r.human_review;
}

pub not_pending : (d : Decision) → (new_status d == "pending") ≡ false
unfolding new_status decision_text
not_pending approve = refl
not_pending reject = refl
not_pending modify = refl

-- The answer to the request that resolves the approval.
unfoldable pub accepted :
    ℕ → String → ApprovalRequest → PendingApprovalRow → List PendingApprovalRow → Resolved
accepted now id body row table = record {
  answer = ok (record {
    status = new_status body.decision;
    approval_id = id;
    resolution = resolution_of body;
  });
  table = (cas_resolve now id (new_status body.decision) (resolution_of body) "" table).1;
  resumed = some (resume_state body row);
}

pub resolve_approval-accepted :
    (now : ℕ) (id : String) (body : ApprovalRequest) (table : List PendingApprovalRow)
    (row : PendingApprovalRow)
    → HasKey table
    → get id table ≡ some row
    → (row.status == "pending") ≡ true
    → resolve_approval true now id body table ≡ accepted now id body row table
unfolding resolve_approval check_approval after_check commit_approval conclude accepted
resolve_approval-accepted now id body table row key there pending =
    let (updated, found) =
      cas_resolve-pending now id (new_status body.decision) (resolution_of body) "" table row key
        there pending in
    rw (there, check_row, pending, updated) refl
