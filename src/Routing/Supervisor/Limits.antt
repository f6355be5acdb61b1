-- ===== src/Routing/Supervisor/Limits.antt =====
-- agents/supervisor.py: bounds that `supervisor_node` keeps in every branch.
use water_info.Base.{
  ◌≡◌, refl, sym, ◌∙◌, ℕ, ◌+◌, ◌<◌, ◌≤◌, true, false, none, some, ltb, Bool-cases, inl, inr, arith,
  string_eq,
}
use water_info.Routing.Agents.{end}
use water_info.Routing.Fallback.{
  Intent, general_chat, knowledge_qa, station_status, overview, alarm_overview, risk_query,
  plan_generation, resource_dispatch, notification_query, execution_status, data_lookup, other,
}
use water_info.Routing.Safety.{Settings, is_set, continues, high_risk_action_keywords}
use water_info.Routing.State.{interrupt, to, RagTarget, State}
use water_info.Routing.Structured.{
  with_structured_routing-iteration, with_structured_routing-end, with_structured_routing-held,
  with_structured_routing-rag_target, with_structured_routing-review,
}
use water_info.Routing.Text.{contains_any}
use water_info.Routing.Supervisor.{
  Runtime, intent_iteration_limit, is_stuck, plain_update, inferred, decide, supervisor_node,
}
use water_info.Routing.Supervisor.Routes.{decide-IsRoute}

module _ (settings : Settings) (rt : Runtime) (s : State) where
  -- The supervisor counts its visits: every branch raises the iteration by one.
  pub supervisor_node-iteration : (supervisor_node settings rt s).iteration ≡ s.iteration + 1
  unfolding supervisor_node
  supervisor_node-iteration =
      let u = decide settings rt s in
      with_structured_routing-iteration settings rt.re rt.new_uuid u s s.user_query
      ∙ (decide-IsRoute settings rt s).iteration

  ltb_of_lt : {a b : ℕ} → a < b → ltb a b ≡ true
  ltb_of_lt h = ground arith

  limit_le : (i : Intent) → intent_iteration_limit i ≤ 10
  unfolding intent_iteration_limit
  limit_le general_chat = omega arith
  limit_le station_status = omega arith
  limit_le alarm_overview = omega arith
  limit_le risk_query = omega arith
  limit_le overview = omega arith
  limit_le plan_generation = omega arith
  limit_le resource_dispatch = omega arith
  limit_le notification_query = omega arith
  limit_le knowledge_qa = omega arith
  limit_le execution_status = omega arith
  limit_le data_lookup = omega arith
  limit_le (other _) = omega arith

  -- Above the limit of its intent, which is never more than 10, the supervisor ends the turn.
  pub supervisor_node-limit : 10 ≤ s.iteration → (supervisor_node settings rt s).next_agent ≡ to end
  unfolding supervisor_node decide plain_update
  supervisor_node-limit h =
      let i = inferred settings rt s in
      let over : ltb (intent_iteration_limit i.intent) (s.iteration + 1) ≡ true =
        ltb_of_lt (omega (arith, limit_le i.intent)) in
      with_structured_routing-end settings rt.re rt.new_uuid (decide settings rt s) s s.user_query
        (rw over refl)

  -- From the third visit on, two last traces of the phase data_query end the turn.
  pub supervisor_node-stuck :
      2 ≤ s.iteration
      → is_stuck s.execution_traces ≡ true
      → (supervisor_node settings rt s).next_agent ≡ to end
  unfolding supervisor_node decide plain_update
  supervisor_node-stuck later stuck =
      let third : ltb 2 (s.iteration + 1) ≡ true = ltb_of_lt (omega (arith, later)) in
      let i = inferred settings rt s in
      with_structured_routing-end settings rt.re rt.new_uuid (decide settings rt s) s s.user_query
        (elim (Bool-cases (ltb (intent_iteration_limit i.intent) (s.iteration + 1))) [
          | inl over ↦ rw over refl
          | inr within ↦ rw (within, third, stuck) refl
        ])

  -- With structured output and human review on, a query for a dangerous action never continues to an
  -- agent: the supervisor ends the turn or interrupts it, whatever the skills and the model say.
  pub supervisor_node-held :
      settings.structured_output_enabled ≡ true
      → settings.hitl_enabled ≡ true
      → contains_any s.user_query high_risk_action_keywords ≡ true
      → continues (supervisor_node settings rt s).next_agent ≡ false
  unfolding supervisor_node continues
  supervisor_node-held on hitl dangerous =
      let u = decide settings rt s in
      elim (Bool-cases (is_set u.human_confirmation_required)) [
        | inr free ↦
            with_structured_routing-held settings rt.re rt.new_uuid u s s.user_query on hitl
              dangerous free
        | inl asked ↦
            let ends =
              with_structured_routing-end settings rt.re rt.new_uuid u s s.user_query
                ((decide-IsRoute settings rt s).confirmed asked) in
            rw ends refl
      ]

  -- An interrupted turn has a pending review of the new approval, which names no agent.
  pub supervisor_node-review :
      (supervisor_node settings rt s).next_agent ≡ interrupt
      → (supervisor_node settings rt s).human_review
        ≡ some
            (record { approval_id = rt.new_uuid; status = "pending"; original_next_agent = none })
  unfolding supervisor_node
  supervisor_node-review h =
      with_structured_routing-review settings rt.re rt.new_uuid (decide settings rt s) s
        s.user_query (decide-IsRoute settings rt s).sends.0 (decide-IsRoute settings rt s).sends.1 h

  -- A retrieval is put first only while the budget for the session lasts.
  pub supervisor_node-budget :
      (t : RagTarget)
      → (supervisor_node settings rt s).rag_target ≡ some t
      → s.rag_call_count < settings.rag_max_calls_per_session
  unfolding supervisor_node
  supervisor_node-budget t h =
      (decide-IsRoute settings rt s).retrieval t
        (sym (with_structured_routing-rag_target settings rt.re rt.new_uuid _ s s.user_query) ∙ h)
