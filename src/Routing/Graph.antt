-- ===== src/Routing/Graph.antt =====
-- graph.py: the nodes of the graph and its edges, with agents/memory.py (the reset of a turn),
-- agents/knowledge_retriever.py (its budget) and agents/state_pruner.py. What an agent answers is
-- the parameter `answers`: any function, so that a theorem holds for whatever the models, the
-- database and the knowledge base return. A node that raises ends the run, and has no step here.
pub mod Termination
pub mod Budget
pub mod Held
pub mod Searches
use Prim.Native.String
use water_info.Base.{
  ℕ, zero, suc, ◌+◌, String, Bool, true, false, not, ◌&&◌, ◌||◌, Option, none, some, List, [], ◌∷◌,
  ◌++◌, if◌then◌else◌, ◌==◌, string_eq, any, leb, ltb, length, last_of,
}
use water_info.Platform.Skills.{Value}
use water_info.Routing.Agents.{
  Agent, conversation_assistant, knowledge_retriever, risk_analysis_parallel, plan_reviewer,
  validation_parallel, end, Field,
}
use water_info.Routing.Agents
use water_info.Routing.Rag.{is_retriever}
use water_info.Routing.Safety.{Settings}
use water_info.Routing.State.{
  RiskLevel, no_risk, Next, unset, interrupt, to, RagTarget, answer, preflight_risk, Approval,
  State, merge, or_old, or_old_option,
}
use water_info.Routing.Supervisor.{Runtime, is_end, supervisor_node}
use water_info.Routing.Text.{starts_with}

pub data Node : Type 0 where
  memory_loader supervisor final_response memory_writer state_pruner stop : Node
  agent : Agent → Node

-- The keys of the routing state that agents return; the supervisor's own keys and the iteration are
-- not among them. `ok` is whether the retrieval within the agent returned.
pub record AgentUpdate : Type 0 where
  pub present : Field → Option Bool
  pub risk_level : Option RiskLevel
  pub values : Value
  pub has_evidence : Option Bool
  pub next_agent : Option Next
  pub pending_approvals : Option (List Approval)
  pub error : Option String
  pub execution_traces : List String
  pub ok : Bool

unfoldable pub merge_agent : AgentUpdate → State → State
unfolding or_old
merge_agent u s = record s {
  present = λ f. or_old (u.present f) (s.present f);
  risk_level = or_old u.risk_level s.risk_level;
  values = u.values;
  has_evidence = or_old u.has_evidence s.has_evidence;
  next_agent = or_old u.next_agent s.next_agent;
  pending_approvals = or_old u.pending_approvals s.pending_approvals;
  error = or_old u.error s.error;
  execution_traces = s.execution_traces ++ u.execution_traces;
}

-- What `load_context` does.
pub data Load : Type 0 where
  loaded failed : Load
  memory_load_error : (source : String) → Load

-- The results that `_TURN_RESET` does not name.
unfoldable pub keeps_field : Field → Bool
keeps_field Agents.compliance_result = true
keeps_field Agents.safety_check_result = true
keeps_field Agents.execution_progress = true
keeps_field _ = false

-- `_TURN_RESET`: keys that it does not name stay, the traces among them. (`values` is read by gates
-- only, and left as it is.)
unfoldable pub turn_reset : State → State
unfolding keeps_field
turn_reset s = record s {
  iteration = 0;
  next_agent = unset;
  intent = none;
  focus_station_query = none;
  answer_policy = none;
  present = λ f. keeps_field f && s.present f;
  risk_level = no_risk;
  has_evidence = false;
  rag_target = none;
  rag_call_count = 0;
  rag_query_cache = [];
  error = "";
}

unfoldable pub memory_loader_node : Load → State → State
unfolding turn_reset
memory_loader_node load s = if s.session_id == "" then s else elim load [
  | loaded ↦ turn_reset s
  | failed ↦ turn_reset s
  | memory_load_error source ↦ record (turn_reset s) {
    error = String.◌++◌ "memory_load_failed: " source;
    next_agent = to end;
  }
]

unfoldable pub ends : Next → Bool
ends (to end) = true
ends _ = false

unfoldable pub route_from_memory_loader : State → Node
unfolding starts_with ends
route_from_memory_loader s =
    if starts_with s.error "memory_load_failed:" || ends s.next_agent then stop else supervisor

unfoldable pub route_from_supervisor : Next → Node
unfolding is_end
route_from_supervisor unset = final_response
route_from_supervisor interrupt = stop
route_from_supervisor (to a) = if is_end (some a) then final_response else agent a

-- The retriever answers for itself when its mode is "answer", which is also its default.
unfoldable pub route_from_retriever : Option RagTarget → Node
route_from_retriever none = final_response
route_from_retriever (some answer) = final_response
route_from_retriever (some _) = supervisor

unfoldable pub is_conversation : Agent → Bool
is_conversation conversation_assistant = true
is_conversation _ = false

unfoldable pub route_from_agent : Agent → State → Node
unfolding route_from_retriever is_conversation is_retriever
route_from_agent a s =
    if is_conversation a
    then final_response
    else if is_retriever a
    then route_from_retriever s.rag_target
    else supervisor

-- The edges of `build_flood_response_graph`.
unfoldable pub next_node : Node → State → Node
unfolding route_from_memory_loader route_from_supervisor route_from_agent
next_node memory_loader s = route_from_memory_loader s
next_node supervisor s = route_from_supervisor s.next_agent
next_node final_response s = memory_writer
next_node memory_writer s = state_pruner
next_node state_pruner s = stop
next_node stop s = stop
next_node (agent a) s = route_from_agent a s

-- `_prune_execution_traces` with the test before it; the graph adds what it returns to the traces.
unfoldable pub pruned_traces : List String → List String
unfolding last_of
pruned_traces traces = if ltb 50 (length traces) then last_of 50 traces else []

unfoldable pub state_pruner_node : State → State
unfolding pruned_traces
state_pruner_node s = record s {
  execution_traces = s.execution_traces ++ pruned_traces s.execution_traces;
  rag_query_cache = [];
}

unfoldable pub is_risk_analysis : Agent → Bool
is_risk_analysis risk_analysis_parallel = true
is_risk_analysis _ = false

unfoldable pub is_review : Agent → Bool
is_review plan_reviewer = true
is_review validation_parallel = true
is_review _ = false

-- `plan_reviewer_node` searches once, alone or beside the safety check, and counts nothing.
unfoldable pub reviewer_searches : Bool → Agent → Bool → ℕ
unfolding is_review
reviewer_searches plan_reviewer_enabled a ok =
    if plan_reviewer_enabled && is_review a && ok then 1 else 0

module _ (settings : Settings) (rt : Runtime) where
  -- `knowledge_retriever_node`: how many searches of the knowledge base it makes, and the state with
  -- its count and its cache. A search that raises ends the node, and is not here.
  unfoldable pub knowledge_retriever_node : State → ℕ × State
  unfolding any
  knowledge_retriever_node s =
      let query = rt.strip s.user_query in
      if query == ""
      then (0, s)
      else if any (λ h. h == rt.query_hash query) s.rag_query_cache
      then (0, s)
      else if leb settings.rag_max_calls_per_session s.rag_call_count
      then (0, s)
      else (
        1,
        record s {
          rag_call_count = s.rag_call_count + 1;
          rag_query_cache = rt.query_hash query ∷ s.rag_query_cache;
        },
      )

  unfoldable pub retrieve : State → State
  unfolding knowledge_retriever_node
  retrieve s = (knowledge_retriever_node s).1

  -- The retrieval within an agent: the retriever's own, and the one beside the risk assessor, which
  -- is told that its mode is preflight_risk.
  unfoldable pub retrieval : Agent → Bool → State → State
  unfolding retrieve knowledge_retriever_node or_old_option is_retriever is_risk_analysis
  retrieval a ok s =
      if is_retriever a
      then record (retrieve s) { rag_target = or_old_option s.rag_target (some answer) }
      else if is_risk_analysis a && ok
      then record (retrieve s) { rag_target = some preflight_risk }
      else s

  -- The searches of the knowledge retriever in an agent that returned.
  unfoldable pub retriever_searches : Agent → Bool → State → ℕ
  unfolding knowledge_retriever_node is_retriever is_risk_analysis
  retriever_searches a ok s =
      if is_retriever a
      then (knowledge_retriever_node s).0
      else if is_risk_analysis a && ok
      then (knowledge_retriever_node s).0
      else 0

  module _ (load : Load) (answers : Node → State → AgentUpdate) where
    unfoldable pub node_effect : Node → State → State
    unfolding memory_loader_node supervisor_node merge merge_agent state_pruner_node retrieval
    node_effect memory_loader s = memory_loader_node load s
    node_effect supervisor s = merge (supervisor_node settings rt s) s
    node_effect (agent a) s = let u = answers (agent a) s in merge_agent u (retrieval a u.ok s)
    node_effect state_pruner s = state_pruner_node s
    node_effect stop s = s
    node_effect n s = merge_agent (answers n s) s

    -- `ainvoke` for at most a number of nodes: the node that is next, and the state.
    unfoldable pub run : ℕ → Node → State → Node × State
    unfolding node_effect next_node
    run zero n s = (n, s)
    run (suc fuel) n s = let t = node_effect n s in run fuel (next_node n t) t

    -- All searches of the knowledge base that return at a node.
    unfoldable pub node_searches : Bool → Node → State → ℕ
    unfolding retriever_searches reviewer_searches
    node_searches plan_reviewer_enabled (agent a) s =
        let ok = (answers (agent a) s).ok in
        retriever_searches a ok s + reviewer_searches plan_reviewer_enabled a ok
    node_searches plan_reviewer_enabled _ s = 0

    unfoldable pub node_reviews : Bool → Node → State → ℕ
    unfolding reviewer_searches
    node_reviews plan_reviewer_enabled (agent a) s =
        reviewer_searches plan_reviewer_enabled a (answers (agent a) s).ok
    node_reviews plan_reviewer_enabled _ s = 0

    -- What the nodes of a run add up to.
    unfoldable pub total : (Node → State → ℕ) → ℕ → Node → State → ℕ
    unfolding node_effect next_node
    total f zero n s = 0
    total f (suc fuel) n s = let t = node_effect n s in f n s + total f fuel (next_node n t) t
