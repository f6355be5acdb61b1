-- ===== src/Examples/Endpoints.antt =====
-- Requests to the endpoints, on concrete tables.
use water_info.Base.{
  ◌≡◌, refl, pos, ◌+◌, ◌≤◌, length, keep, arith, List, true, false, none, some, [], ◌∷◌, ◌==◌,
  string_eq, any,
}
use water_info.Base.Result.{ok, err}
use water_info.Endpoints.Approval.{
  approve, reject, ApprovalRequest, resolve_approval, resume_state, store_interrupt, review_of,
}
use water_info.Endpoints.Approval.Races
use water_info.Endpoints.Approval.Races.{Server, Event, checks, commits, waiting, run-conserves}
use water_info.Endpoints.Interrupt.{approve-forgets_agent}
use water_info.Endpoints.Resume.{Checkpoint, resume_session, resume_session-releases}
use water_info.Endpoints.Review.{Request, patching, approving, integer, handle, approval, api_error}
use water_info.Endpoints.Review.Requests.{handle-lost_update, handle-atomic}
use water_info.Examples.Data.{draft_db, patch}
use water_info.Examples.Data
use water_info.Examples.Review.{answer}
use water_info.Examples.Turns.{settings, runtime, state}
use water_info.Plan.Review.{approve_plan, paths_fit}
use water_info.Plan.Tables.{Db, Sequences, varchar}
use water_info.Plan.Tx.{◌>>=◌}
use water_info.Platform.Approvals.{PendingApprovalRow, get, HasKey, empty, more}
use water_info.Platform.Idempotency.{Key, in_flight}
use water_info.Routing.State.{State, interrupt, unset, merge}
use water_info.Routing.Supervisor.{supervisor_node}

abbrev approval_row : PendingApprovalRow
approval_row = record {
  approval_id = "a1";
  session_id = "s1";
  agent_run_id = "";
  approval_type = "critical_action_review";
  payload_json = record { original_next_agent = some unset; query = "组织群众疏散" };
  status = "pending";
  created_at = 1;
  resolved_at = none;
  resolved_by = none;
  resolution = none;
}

abbrev approves : ApprovalRequest
approves = record { decision = approve; comment = ""; override_next_agent = none }

abbrev rejects : ApprovalRequest
rejects = record { decision = reject; comment = "no"; override_next_agent = none }

approval_row_found : get "a1" (approval_row ∷ []) ≡ some approval_row
unfolding get
approval_row_found = refl

one_key : HasKey (approval_row ∷ [])
unfolding any
one_key = more approval_row [] refl empty

-- Two requests that have both read the row before either updates it.
abbrev race : List Event
race = checks 1 approves ∷ checks 2 rejects ∷ commits 2 5 ∷ commits 1 6 ∷ []

abbrev server : Server
server = record { table = approval_row ∷ []; in_flight = []; runs = [] }

one_waits : waiting true "a1" server ≤ 1
unfolding keep
one_waits = omega arith

run-conserves_example :
    length (Races.run true "a1" race server).runs
      + waiting true "a1" (Races.run true "a1" race server)
    ≡ length server.runs + waiting true "a1" server
run-conserves_example = run-conserves true "a1" race server one_waits

rejection_wins : (Races.run true "a1" race server).runs ≡ resume_state rejects approval_row ∷ []
unfolding Races.run
rejection_wins = refl

abbrev evacuation : State
evacuation = state "组织群众疏散" []

evacuation_stops : (supervisor_node (settings true) runtime evacuation).next_agent ≡ interrupt
unfolding supervisor_node
evacuation_stops = refl

nothing_stored : any {A = PendingApprovalRow} (λ r. r.approval_id == "a1") [] ≡ false
unfolding any
nothing_stored = refl

approve-forgets_agent_example :
    (resolve_approval true 5 "a1" approves (
      store_interrupt "a1"
        (merge (supervisor_node (settings true) runtime evacuation) evacuation)
        [])).resumed
    ≡ some
        (record { session_id = "s1"; next_agent = unset; human_review = review_of "a1" "approved" })
approve-forgets_agent_example =
    approve-forgets_agent (settings true) runtime evacuation [] 5 approves evacuation_stops empty
      refl nothing_stored refl

abbrev checkpoint : Checkpoint
checkpoint = record { checkpoint_id = "c1"; values = evacuation }

abbrev key : Key
key = record { checkpoint_id = "c1"; state_sha1 = "d" }

resume_session-releases_example :
    in_flight key
      (resume_session
        (λ s. "d")
        (λ s. false)
        true
        "s1"
        (record { checkpoint_id = none; override_next_agent = none })
        (checkpoint ∷ [])
        []).1
    ≡ in_flight key []
resume_session-releases_example =
    resume_session-releases (λ s. "d") (λ s. false) true "s1"
      (record { checkpoint_id = none; override_next_agent = none }) (checkpoint ∷ []) [] key

abbrev approving_request : Request
approving_request = record {
  headers = record { user_id = "u1"; username = "Li" };
  plan_id = "P1";
  version = some (integer (pos 0));
  body = approving (some "fine");
}

abbrev patching_request : Request
patching_request = record {
  headers = record { user_id = "u1"; username = "Li" };
  plan_id = "P1";
  version = some (integer (pos 0));
  body = patching patch;
}

abbrev after_approval : Db
unfolding approve_plan
after_approval = (approve_plan Data.runtime 6 "P1" (pos 0) "fine" Data.reviewer draft_db).1

first_answered :
    handle Data.runtime 6 ("u1" ∷ []) approving_request draft_db draft_db
    ≡ (ok (approval answer), after_approval)
unfolding handle approve_plan after_approval ◌>>=◌ varchar paths_fit
first_answered = refl

handle-lost_update_example : ¬ (
    handle Data.runtime 7 ("u1" ∷ []) patching_request draft_db after_approval
    ≡ (ok (approval answer), after_approval))
handle-lost_update_example =
    handle-lost_update Data.runtime Data.runtime 6 7 ("u1" ∷ []) ("u1" ∷ []) approving_request
      patching_request draft_db draft_db draft_db after_approval after_approval (approval answer)
      (approval answer) refl refl first_answered

abbrev anonymous_request : Request
anonymous_request = record {
  headers = record { user_id = ""; username = "" };
  plan_id = "P1";
  version = none;
  body = patching patch;
}

anonymous_refused :
    handle Data.runtime 6 [] anonymous_request draft_db draft_db
    ≡ (err (api_error 400 "MISSING_IDENTITY"), draft_db)
unfolding handle
anonymous_refused = refl

handle-atomic_example : (s : Sequences) × (draft_db ≡ record draft_db { seq = s })
handle-atomic_example =
    handle-atomic Data.runtime 6 [] anonymous_request draft_db draft_db draft_db
      (api_error 400 "MISSING_IDENTITY") anonymous_refused
