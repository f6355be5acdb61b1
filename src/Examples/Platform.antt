-- ===== src/Examples/Platform.antt =====
-- Orders, allocations, approvals and records of the platform services.
use water_info.Base.{
  pos, String, ◌≡◌, refl, true, false, some, List, [], ◌∷◌, All, string_eq, ◌==◌, arith,
}
use water_info.Platform.Dispatch
use water_info.Platform.Dispatch.{DispatchState, ai_draft, Request, new_machine, PathOf, run-PathOf}
use water_info.Platform.Validator.{
  Allocation, Inventory, Served, validate_dispatch_plan, validate_dispatch_plan-Served,
}
use water_info.Platform.Gateway
use water_info.Platform.Gateway.{
  PendingApproval, ApprovalDecision, IsDecided, was_approved, at, run-IsDecided, rejects, checks,
}
use water_info.Platform.Idempotency
use water_info.Platform.Idempotency.{
  Key, try_acquire, release, acquires, releases, holds, same_key, try_acquire-excludes,
}
use water_info.Platform.Recorder
use water_info.Platform.Recorder.{
  Entry, Recorder, Outcome, sent, failed, missing, IsBounded, records, retries, run-IsBounded,
  retry_buffered, retry_buffered-buffer, is_sent,
}

abbrev requests : List Request
requests =
    record { target = Dispatch.approved; now = 1; operator_id = "u1"; reason = "ok" }
    ∷ record { target = Dispatch.arrived; now = 2; operator_id = "u1"; reason = "too early" }
    ∷ record { target = Dispatch.cancelled; now = 3; operator_id = "u1"; reason = "no" }
    ∷ []

run-PathOf_example :
    PathOf ai_draft
      (Dispatch.run (new_machine ai_draft) requests).history
      (Dispatch.run (new_machine ai_draft) requests).state
run-PathOf_example = run-PathOf ai_draft requests

abbrev inventory : Inventory
inventory = record {
  get_resource = λ id. some (record { quantity = pos 5; status = "available"; location = "depot" });
  is_known_location = λ place. place == "dam";
  lower = λ s. s;
}

abbrev allocation : Allocation
allocation = record {
  resource_id = "r1";
  quantity = pos 3;
  status = "";
  source_location = "";
  from_location = "";
  target_location = "";
  to_location = "dam";
}

validate_dispatch_plan-Served_example :
    All (Served inventory) (validate_dispatch_plan inventory (allocation ∷ [])).valid_allocations
validate_dispatch_plan-Served_example = validate_dispatch_plan-Served inventory (allocation ∷ [])

abbrev decision : ApprovalDecision
decision = record { approved = true; approver_id = "u1"; reason = "ok"; timestamp = 4 }

abbrev evacuation : PendingApproval
evacuation = record {
  id = "x";
  action_type = "evacuation";
  created_at = 1;
  timeout_minutes = 30;
  status = Gateway.approved;
  approval_decision = some decision;
}

evacuation-IsDecided : IsDecided "x" (evacuation ∷ [])
unfolding at
evacuation-IsDecided = record { approval = evacuation; found = refl; decided = was_approved }

run-IsDecided_example :
    IsDecided "x" (Gateway.run (checks 9000 "x" ∷ rejects "x" decision ∷ []) (evacuation ∷ []))
run-IsDecided_example =
    run-IsDecided "x" (checks 9000 "x" ∷ rejects "x" decision ∷ []) (evacuation ∷ [])
      evacuation-IsDecided

abbrev key : Key
key = record { checkpoint_id = "c"; state_sha1 = "h" }

abbrev other_key : Key
other_key = record { checkpoint_id = "c"; state_sha1 = "k" }

no_release : holds key (acquires other_key ∷ releases other_key ∷ []) ≡ true
unfolding holds
no_release = refl

try_acquire-excludes_example :
    (try_acquire key
      (Idempotency.run (acquires other_key ∷ releases other_key ∷ []) (try_acquire key []).1)).0
    ≡ false
try_acquire-excludes_example =
    try_acquire-excludes key [] (acquires other_key ∷ releases other_key ∷ []) no_release

abbrev entry : String → Entry
entry p = record { table = "ai_tool_call"; payload = p }

abbrev recorder : Recorder
recorder = record {
  enabled = true;
  buffer_limit = 2;
  disabled = false;
  buffer = entry "a" ∷ entry "b" ∷ [];
}

recorder-IsBounded : IsBounded recorder
recorder-IsBounded = record { has_limit = omega arith; fits = omega arith }

run-IsBounded_example : IsBounded (Recorder.run (records failed (entry "c") ∷ []) recorder)
run-IsBounded_example = run-IsBounded (records failed (entry "c") ∷ []) recorder recorder-IsBounded
