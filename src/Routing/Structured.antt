-- ===== src/Routing/Structured.antt =====
-- agents/supervisor.py: `_with_structured_routing`, which every return of the supervisor goes
-- through: the routing decision, the trace of the topology, and the interrupt for a human.
use water_info.Base.{
  ◌≡◌, refl, inl, inr, String, true, false, not, ◌&&◌, ◌||◌, none, some, [], ◌∷◌, ◌++◌,
  if◌then◌else◌, Bool-cases, arith,
}
use water_info.Routing.Agents.{Agent, end}
use water_info.Routing.Fallback.{Intent}
use water_info.Routing.Intent.{Re, infer_intent}
use water_info.Routing.State.{
  SafetyLevel, high, interrupt, to, critical_action_review, RoutingDecision, State, Update,
}
use water_info.Routing.Safety.{
  Settings, infer_safety_level, required_context_for_agent, missing_context_for_agent, or_end,
  or_intent, is_set, is_critical, needs_confirmation, continues, high_risk_action_keywords,
}
use water_info.Routing.Text.{contains_any}

module _ (settings : Settings) (re : Re) (new_uuid : String) where
  unfoldable pub safety_of : Update → String → SafetyLevel
  unfolding is_set infer_safety_level or_end
  safety_of u user_query =
      if is_set u.human_confirmation_required
      then high
      else infer_safety_level user_query (or_end u.next_agent)

  unfoldable pub routing_decision_of : Update → State → String → RoutingDecision
  unfolding or_end or_intent infer_intent required_context_for_agent missing_context_for_agent
      safety_of needs_confirmation
  routing_decision_of u s user_query =
      let next = or_end u.next_agent in
      let required = required_context_for_agent next in
      let level = safety_of u user_query in
      record {
        intent = or_intent u.intent (or_intent s.intent (infer_intent re user_query));
        next_agent = next;
        required_context = required;
        missing_context = missing_context_for_agent next s required;
        safety_level = level;
        human_confirmation_required = needs_confirmation level;
      }

  -- The update with the decision, and the trace of the profile.
  unfoldable pub enriched : Update → State → String → Update
  unfolding routing_decision_of is_set
  enriched u s user_query =
      let d = routing_decision_of u s user_query in
      record u {
        routing_decision = some d;
        safety_level = some d.safety_level;
        human_confirmation_required =
            some (is_set u.human_confirmation_required || d.human_confirmation_required);
        execution_traces =
            if settings.dynamic_topology_enabled
            then u.execution_traces ++ "data_query" ∷ []
            else u.execution_traces;
      }

  -- The interrupt takes the place of the next agent, which the new approval keeps.
  unfoldable pub interrupted : Update → Update → State → Intent → Update
  interrupted u e s intent = record e {
    next_agent = interrupt;
    human_confirmation_required = some true;
    pending_approvals = some (
        s.pending_approvals
        ++ critical_action_review new_uuid s.session_id u.next_agent intent ∷ []);
    human_review =
        some (record { approval_id = new_uuid; status = "pending"; original_next_agent = none });
    execution_traces = e.execution_traces ++ "data_query" ∷ [];
  }

  unfoldable pub with_structured_routing : Update → State → String → Update
  unfolding enriched interrupted routing_decision_of is_critical continues
  with_structured_routing u s user_query =
      let e = enriched u s user_query in
      let d = routing_decision_of u s user_query in
      if not settings.structured_output_enabled
      then u
      else if settings.hitl_enabled && is_critical d.safety_level && continues e.next_agent
      then interrupted u e s d.intent
      else e

  -- The iteration and the mode of retrieval are the update's, and the end stays the end.
  pub with_structured_routing-iteration :
      (u : Update) (s : State) (q : String)
      → (with_structured_routing u s q).iteration ≡ u.iteration
  unfolding with_structured_routing enriched interrupted
  with_structured_routing-iteration u s q = ground arith

  pub with_structured_routing-rag_target :
      (u : Update) (s : State) (q : String)
      → (with_structured_routing u s q).rag_target ≡ u.rag_target
  unfolding with_structured_routing enriched interrupted
  with_structured_routing-rag_target u s q = ground arith

  pub with_structured_routing-end :
      (u : Update) (s : State) (q : String)
      → u.next_agent ≡ to end
      → (with_structured_routing u s q).next_agent ≡ to end
  unfolding with_structured_routing enriched continues
  with_structured_routing-end u s q h = rw h (ground (arith, h))

  -- An interrupt of an update that names an agent comes with a review of the new approval.
  pub with_structured_routing-review :
      (u : Update) (s : State) (q : String) (a : Agent)
      → u.next_agent ≡ to a
      → (with_structured_routing u s q).next_agent ≡ interrupt
      → (with_structured_routing u s q).human_review
        ≡ some (record { approval_id = new_uuid; status = "pending"; original_next_agent = none })
  unfolding with_structured_routing enriched interrupted
  with_structured_routing-review u s q a sends h =
      let level = is_critical (routing_decision_of u s q).safety_level in
      elim (Bool-cases settings.structured_output_enabled) [
        | inr off ↦ cc (rw (off, sends) at h)
        | inl on ↦ elim (Bool-cases (settings.hitl_enabled && level && continues u.next_agent)) [
          | inl holds ↦ rw (on, holds) refl
          | inr goes ↦ cc (sends, rw (on, goes) at h)
        ]
      ]

  critical_level :
      (u : Update) (s : State) (q : String)
      → contains_any q high_risk_action_keywords ≡ true
      → is_set u.human_confirmation_required ≡ false
      → is_critical (routing_decision_of u s q).safety_level ≡ true
  unfolding routing_decision_of safety_of infer_safety_level is_critical
  critical_level u s q dangerous free = rw (free, dangerous) refl

  -- With both flags set, a query for a dangerous action never continues to an agent, unless the
  -- update asks for a confirmation by itself.
  pub with_structured_routing-held :
      (u : Update) (s : State) (q : String)
      → settings.structured_output_enabled ≡ true
      → settings.hitl_enabled ≡ true
      → contains_any q high_risk_action_keywords ≡ true
      → is_set u.human_confirmation_required ≡ false
      → continues (with_structured_routing u s q).next_agent ≡ false
  unfolding with_structured_routing enriched interrupted
  with_structured_routing-held u s q on hitl dangerous free =
      let level = critical_level u s q dangerous free in
      elim (Bool-cases (continues u.next_agent)) [
        | inl goes ↦ rw (on, hitl, level, goes) refl
        | inr stops ↦ rw (on, hitl, level, stops) stops
      ]
