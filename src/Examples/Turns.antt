-- ===== src/Examples/Turns.antt =====
-- Turns of the graph, from concrete states.
use water_info.Base.{
  ℕ, zero, suc, ◌≡◌, refl, String, Bool, true, false, none, some, List, [], ◌∷◌, length, arith,
}
use water_info.Platform.Skills.{null}
use water_info.Routing.Agents.{
  validation_parallel, end, Field, data_summary, risk_assessment, emergency_plan, resource_plan,
  notifications, compliance_result, safety_check_result, execution_progress,
}
use water_info.Routing.Fallback.{plan_generation}
use water_info.Routing.Safety
use water_info.Routing.Safety.{Settings}
use water_info.Routing.State.{moderate, unset, to, AnswerPolicy, State}
use water_info.Routing.Supervisor.{Runtime, supervisor_node}
use water_info.Routing.Text.{contains_any}
use water_info.Routing.Graph.{
  Node, memory_loader, stop, agent, AgentUpdate, loaded, node_effect, supervisor, run,
  state_pruner_node,
}
use water_info.Routing.Graph.Budget.{silent_agent-ends, state_pruner_node-grows}
use water_info.Routing.Graph.Held.{is_agent, run-held}
use water_info.Routing.Graph.Termination.{run-stops}

abbrev pub settings : Bool → Settings
settings on = record {
  structured_output_enabled = on;
  dynamic_topology_enabled = on;
  hitl_enabled = on;
  skill_registry_enabled = false;
  rag_preflight_risk_enabled = false;
  rag_max_calls_per_session = 2;
}

-- Without a model; the id of the next approval is given.
abbrev pub runtime : Runtime
runtime = record {
  re = record { strip_lower = λ q. q; is_greeting = λ q. false; station = λ q. none };
  strip = λ q. q;
  query_hash = λ q. q;
  digits = λ q. none;
  float_of = λ q. 0;
  skills = [];
  llm_is_enabled = false;
  llm_answer = λ s. none;
  new_uuid = "a1";
}

abbrev policy : AnswerPolicy
policy = record { data_only = false; data_lookup = false; requested_count = 1; metric_type = none }

-- Data, risk and plan are there.
abbrev planned : Field → Bool
planned data_summary = true
planned risk_assessment = true
planned emergency_plan = true
planned resource_plan = false
planned notifications = false
planned compliance_result = false
planned safety_check_result = false
planned execution_progress = false

abbrev pub state : String → List String → State
state query traces = record {
  session_id = "s1";
  user_query = query;
  iteration = 3;
  next_agent = unset;
  intent = some plan_generation;
  focus_station_query = none;
  answer_policy = some policy;
  present = planned;
  risk_level = moderate;
  values = null;
  has_evidence = true;
  rag_target = none;
  rag_call_count = 0;
  rag_query_cache = [];
  skill_agent_sequence = [];
  safety_level = none;
  human_confirmation_required = false;
  pending_approvals = [];
  human_review = none;
  execution_traces = traces;
  error = "";
}

abbrev answers : Node → State → AgentUpdate
answers n s = record {
  present = λ f. none;
  risk_level = none;
  values = null;
  has_evidence = none;
  next_agent = none;
  pending_approvals = none;
  error = none;
  execution_traces = [];
  ok = true;
}

run-stops_example :
    (run (settings true) runtime loaded answers 25 memory_loader (state "制定预案" [])).0 ≡ stop
run-stops_example = run-stops (settings true) runtime loaded answers (state "制定预案" [])

evacuates : contains_any "组织群众疏散" Safety.high_risk_action_keywords ≡ true
unfolding contains_any
evacuates = refl

run-held_example :
    is_agent (run (settings true) runtime loaded answers 6 memory_loader (state "组织群众疏散" [])).0
    ≡ false
run-held_example =
    run-held (settings true) runtime loaded answers refl refl 6 (state "组织群众疏散" []) evacuates

abbrev after_plan : State
after_plan = state "制定预案" ("risk_assessment" ∷ "data_query" ∷ [])

adds_one :
    (supervisor_node (settings false) runtime after_plan).execution_traces ≡ "data_query" ∷ []
unfolding supervisor_node
adds_one = refl

silent_agent-ends_example :
    let t =
      node_effect
        (settings false)
        runtime
        loaded
        answers
        (agent validation_parallel)
        (node_effect (settings false) runtime loaded answers supervisor after_plan) in
    (supervisor_node (settings false) runtime t).next_agent ≡ to end
silent_agent-ends_example =
    silent_agent-ends (settings false) runtime loaded answers validation_parallel after_plan
      ("risk_assessment" ∷ []) (omega arith) refl adds_one refl

abbrev repeat : ℕ → List String
repeat zero = []
repeat (suc n) = "data_query" ∷ repeat n

state_pruner_node-grows_example :
    length (state_pruner_node (state "" (repeat 51))).execution_traces ≡ 101
state_pruner_node-grows_example = state_pruner_node-grows (state "" (repeat 51)) (omega arith)
