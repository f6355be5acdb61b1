-- ===== src/Endpoints/Interrupt.antt =====
-- main.py and agents/supervisor.py: an interrupted turn, from the supervisor to the run after its
-- approval.
use water_info.Base.{
  ◌≡◌, refl, ℕ, true, false, Option, some, none, List, [], ◌∷◌, ◌++◌, ◌==◌, string_eq, any,
}
use water_info.Endpoints.Approval.{
  approve, ApprovalRequest, resolve_approval, resolve_approval-accepted, resume_state,
  approved_state, original_next, review_of, store_interrupt, store_review, pending_row, or_empty,
  accepted,
}
use water_info.Platform.Approvals.{
  PendingApprovalRow, insert_pending, HasKey, get-append, HasKey-append,
}
use water_info.Routing.Safety.{Settings}
use water_info.Routing.State.{interrupt, unset, State, HumanReview, merge, or_old_option}
use water_info.Routing.Supervisor.{Runtime, supervisor_node}
use water_info.Routing.Supervisor.Limits.{supervisor_node-review}

module _ (settings : Settings) (rt : Runtime) (s : State) (table : List PendingApprovalRow) where
  stored : PendingApprovalRow
  stored =
      pending_row rt.new_uuid s.session_id s.user_query
        (record { approval_id = rt.new_uuid; status = "pending"; original_next_agent = none })

  -- The review that the supervisor leaves.
  abbrev pending_review : HumanReview
  pending_review = record {
    approval_id = rt.new_uuid;
    status = "pending";
    original_next_agent = none;
  }

  store_review-row :
      (t : State) (o : Option HumanReview)
      → o ≡ some pending_review
      → (rt.new_uuid == "") ≡ false
      → any (λ r. r.approval_id == rt.new_uuid) table ≡ false
      → store_review rt.new_uuid t table o
        ≡ table ++ pending_row rt.new_uuid t.session_id t.user_query pending_review ∷ []
  unfolding store_review insert_pending pending_row
  store_review-row t o asks named fresh = rw (asks, store_review, named, fresh) refl

  store_interrupt-row :
      (supervisor_node settings rt s).next_agent ≡ interrupt
      → (rt.new_uuid == "") ≡ false
      → any (λ r. r.approval_id == rt.new_uuid) table ≡ false
      → store_interrupt rt.new_uuid (merge (supervisor_node settings rt s) s) table
        ≡ table ++ stored ∷ []
  unfolding store_interrupt merge or_old_option stored
  store_interrupt-row stops named fresh =
      let review = supervisor_node-review settings rt s stops in
      let stopped = record (merge (supervisor_node settings rt s) s) { next_agent = interrupt } in
      rw stops (store_review-row stopped _ (rw review refl) named fresh)

  -- The approval of an interrupted turn runs the graph again with an empty next agent: the agent that
  -- the supervisor had chosen is not in the stored approval. The id of the approval is fresh.
  pub approve-forgets_agent :
      (now : ℕ) (body : ApprovalRequest)
      → (supervisor_node settings rt s).next_agent ≡ interrupt
      → HasKey table
      → (rt.new_uuid == "") ≡ false
      → any (λ r. r.approval_id == rt.new_uuid) table ≡ false
      → body.decision ≡ approve
      → let stored_table =
          store_interrupt rt.new_uuid (merge (supervisor_node settings rt s) s) table in
        (resolve_approval true now rt.new_uuid body stored_table).resumed
        ≡ some (record {
          session_id = s.session_id;
          next_agent = unset;
          human_review = review_of rt.new_uuid "approved";
        })
  unfolding resume_state approved_state original_next or_empty pending_row stored accepted
  approve-forgets_agent now body stops key named fresh approves =
      let done =
        resolve_approval-accepted now rt.new_uuid body (table ++ stored ∷ []) stored
          (HasKey-append stored table key fresh) (get-append stored table fresh) refl in
      rw (store_interrupt-row stops named fresh, done, approves) refl
