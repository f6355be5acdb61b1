-- ===== src/Routing/Graph/Held.antt =====
-- graph.py: a turn whose query names a dangerous action, with human review on.
use water_info.Base.{◌≡◌, refl, ℕ, zero, suc, Bool, true, false, ◌||◌, Bool-cases, arith, inl, inr}
use water_info.Routing.Safety.{Settings, continues, high_risk_action_keywords, is_end_agent}
use water_info.Routing.State.{Next, unset, interrupt, to, State, merge}
use water_info.Routing.Supervisor.{Runtime, is_end, supervisor_node}
use water_info.Routing.Supervisor.Limits.{supervisor_node-held}
use water_info.Routing.Text.{contains_any, starts_with}
use water_info.Routing.Graph.{
  Node, memory_loader, supervisor, final_response, memory_writer, state_pruner, stop, agent,
  AgentUpdate, Load, memory_loader_node, turn_reset, ends, route_from_memory_loader,
  route_from_supervisor, node_effect, next_node, run,
}

-- The nodes of agents, and those from which no agent is reached.
unfoldable pub is_agent : Node → Bool
is_agent (agent a) = true
is_agent _ = false

is_last : Node → Bool
is_last final_response = true
is_last memory_writer = true
is_last state_pruner = true
is_last stop = true
is_last _ = false

module _ (settings : Settings) (rt : Runtime) (load : Load)
    (answers : Node → State → AgentUpdate) where
  run-last :
      (n : ℕ) (m : Node) (s : State)
      → is_last m ≡ true
      → is_agent (run settings rt load answers n m s).0 ≡ false
  unfolding run next_node is_last is_agent
  run-last zero final_response s h = refl
  run-last zero memory_writer s h = refl
  run-last zero state_pruner s h = refl
  run-last zero stop s h = refl
  run-last n memory_loader s h = cc
  run-last n supervisor s h = cc
  run-last n (agent a) s h = cc
  run-last (suc n) final_response s h = run-last n memory_writer _ refl
  run-last (suc n) memory_writer s h = run-last n state_pruner _ refl
  run-last (suc n) state_pruner s h = run-last n stop _ refl
  run-last (suc n) stop s h = run-last n stop _ refl

  route-is_last :
      (next : Next) → continues next ≡ false → is_last (route_from_supervisor next) ≡ true
  unfolding route_from_supervisor continues is_last is_end
  route-is_last unset h = cc
  route-is_last interrupt h = refl
  route-is_last (to a) h = elim (Bool-cases (is_end_agent a)) [
    | inl done ↦ rw done refl
    | inr goes ↦ cc (rw goes at h)
  ]

  module _ (on : settings.structured_output_enabled ≡ true)
      (hitl : settings.hitl_enabled ≡ true) where
    run-supervisor_held :
        (n : ℕ) (s : State)
        → contains_any s.user_query high_risk_action_keywords ≡ true
        → is_agent (run settings rt load answers n supervisor s).0 ≡ false
    unfolding run next_node node_effect merge is_agent
    run-supervisor_held zero s dangerous = refl
    run-supervisor_held (suc n) s dangerous =
        run-last n (route_from_supervisor (supervisor_node settings rt s).next_agent) _
          (route-is_last _ (supervisor_node-held settings rt s on hitl dangerous))

    loader-query : (s : State) → (memory_loader_node load s).user_query ≡ s.user_query
    unfolding memory_loader_node turn_reset
    loader-query s = ground arith

    from_loader_held :
        (n : ℕ) (t : State)
        → contains_any t.user_query high_risk_action_keywords ≡ true
        → is_agent (run settings rt load answers n (route_from_memory_loader t) t).0 ≡ false
    unfolding route_from_memory_loader is_last
    from_loader_held n t dangerous =
        elim (Bool-cases (starts_with t.error "memory_load_failed:" || ends t.next_agent)) [
          | inl fails ↦ rw fails (run-last n stop t refl)
          | inr goes ↦ rw goes (run-supervisor_held n t dangerous)
        ]

    -- With structured output and human review on, a turn whose query names a dangerous action never
    -- reaches an agent, at any step, whatever the model answers and whatever the state held before,
    -- the decision on an earlier approval included.
    pub run-held :
        (n : ℕ) (s : State)
        → contains_any s.user_query high_risk_action_keywords ≡ true
        → is_agent (run settings rt load answers n memory_loader s).0 ≡ false
    unfolding run next_node node_effect is_agent
    run-held zero s dangerous = refl
    run-held (suc n) s dangerous =
        from_loader_held n (memory_loader_node load s) (rw (loader-query s) dangerous)
