-- ===== src/Endpoints/Approval/Races.antt =====
-- main.py: requests to `resolve_approval` for one approval, of which each reads the row and updates it
-- in two statements. Between them any statements of the others may run.
use water_info.Base.{
  ◌≡◌, refl, ℕ, ◌+◌, ◌≤◌, String, Bool, not, ◌&&◌, Option, none, some, List, [], ◌∷◌, ◌++◌, length,
  length-append, ◌∙◌, keep, if◌then◌else◌, ◌==◌, string_eq, nat_eq, nat_beq, arith, inl, inr,
}
use water_info.Platform.Approvals.{PendingApprovalRow, is_pending, cas_resolve-waiting}
use water_info.Endpoints.Approval.{
  ApprovalRequest, ResumeState, Checked, refused, proceeds, check_approval, commit_approval,
  conclude, refuse, resume_state, new_status, resolution_of, not_pending,
}

-- A request that has read its row and not yet updated it.
pub record InFlight : Type 0 where
  pub request : ℕ
  pub body : ApprovalRequest
  pub row : PendingApprovalRow

-- The table, the requests between their two statements, and the runs of the graph so far.
pub record Server : Type 0 where
  pub table : List PendingApprovalRow
  pub in_flight : List InFlight
  pub runs : List ResumeState

pub data Event : Type 0 where
  checks : (request : ℕ) (body : ApprovalRequest) → Event
  commits : (request : ℕ) (now : ℕ) → Event

unfoldable pub add_run : Option ResumeState → List ResumeState → List ResumeState
add_run none runs = runs
add_run (some r) runs = runs ++ r ∷ []

unfoldable pub checked : ℕ → ApprovalRequest → Checked → Server → Server
checked request body (refused e) s = s
checked request body (proceeds row) s = record s {
  in_flight = record { request = request; body = body; row = row } ∷ s.in_flight;
}

unfoldable pub find_request : ℕ → List InFlight → Option InFlight
find_request request [] = none
find_request request (f ∷ fs) =
    let rest = find_request request fs in if nat_beq f.request request then some f else rest

unfoldable pub committed : ℕ → String → Option InFlight → Server → Server
unfolding commit_approval add_run
committed now id none s = s
committed now id (some f) s =
    let r = commit_approval now id f.body f.row s.table in
    record {
      table = r.table;
      in_flight = keep (λ g. not (nat_beq g.request f.request)) s.in_flight;
      runs = add_run r.resumed s.runs;
    }

module _ (hitl_enabled : Bool) (id : String) where
  unfoldable pub step : Event → Server → Server
  unfolding check_approval checked committed find_request
  step (checks request body) s = checked request body (check_approval hitl_enabled id s.table) s
  step (commits request now) s = committed now id (find_request request s.in_flight) s

  unfoldable pub run : List Event → Server → Server
  unfolding step
  run [] s = s
  run (e ∷ es) s = run es (step e s)

  -- The rows of the approval that wait for a decision.
  abbrev pub waiting : Server → ℕ
  waiting s = length (keep (λ r. r.approval_id == id && r.status == "pending") s.table)

  -- Runs of the graph and waiting rows, before and after.
  abbrev Conserves : Server → Server → Type 0
  Conserves s t = (length t.runs + waiting t ≡ length s.runs + waiting s) × (waiting t ≤ 1)

  committed-Conserves :
      (now : ℕ) (o : Option InFlight) (s : Server)
      → waiting s ≤ 1
      → Conserves s (committed now id o s)
  unfolding committed commit_approval conclude refuse add_run is_pending
  committed-Conserves now none s few = (refl, few)
  committed-Conserves now (some f) s few =
      let status = new_status f.body.decision in
      elim (cas_resolve-waiting now id status (resolution_of f.body) "" s.table
        (not_pending f.body.decision) few) [
          | inl (taken, one, left) ↦ rw taken (
            omega (arith, one, left, length-append s.runs (resume_state f.body f.row ∷ [])),
            omega (arith, left),
          )
          | inr (lost, same) ↦ rw (lost, same) (refl, few)
        ]

  checked-Conserves :
      (request : ℕ) (body : ApprovalRequest) (c : Checked) (s : Server)
      → waiting s ≤ 1
      → Conserves s (checked request body c s)
  unfolding checked
  checked-Conserves request body (refused e) s few = (refl, few)
  checked-Conserves request body (proceeds row) s few = (refl, few)

  step-Conserves : (e : Event) (s : Server) → waiting s ≤ 1 → Conserves s (step e s)
  unfolding step
  step-Conserves (checks request body) s few =
      checked-Conserves request body (check_approval hitl_enabled id s.table) s few
  step-Conserves (commits request now) s few =
      committed-Conserves now (find_request request s.in_flight) s few

  -- However the statements of the requests for one approval interleave, the runs of the graph that
  -- were started and the rows that wait for a decision, together, stay as many as they were: a waiting
  -- approval starts one run when it is decided, and no request starts another. At most one row waits
  -- at first.
  pub run-conserves :
      (es : List Event) (s : Server)
      → waiting s ≤ 1
      → length (run es s).runs + waiting (run es s) ≡ length s.runs + waiting s
  unfolding run
  run-conserves [] s few = refl
  run-conserves (e ∷ es) s few =
      let (same, still) = step-Conserves e s few in run-conserves es (step e s) still ∙ same
