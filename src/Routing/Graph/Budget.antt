-- ===== src/Routing/Graph/Budget.antt =====
-- graph.py: the count of retrievals along a run, the traces that pruning adds, and the visits after
-- agents that leave no trace.
use mathlib.Core.List.{append_assoc, append-nil}
use water_info.Base.{
  ◌≡◌, refl, ◌∙◌, ◌+◌, ◌-◌, ◌≤◌, ◌<◌, Bool, true, arith, List, [], ◌∷◌, ◌++◌, length, length-append,
  length-drop, last_of, drop, string_eq, String,
}
use water_info.Routing.Agents.{Agent, end}
use water_info.Routing.Safety.{Settings}
use water_info.Routing.State.{to, State, merge}
use water_info.Routing.Supervisor.{Runtime, supervisor_node, is_stuck}
use water_info.Routing.Supervisor.Limits.{supervisor_node-iteration, supervisor_node-stuck}
use water_info.Routing.Graph.{
  Node, memory_loader, supervisor, final_response, memory_writer, state_pruner, stop, agent,
  AgentUpdate, merge_agent, Load, memory_loader_node, turn_reset, retrieve,
  knowledge_retriever_node, retrieval, node_effect, pruned_traces, state_pruner_node,
}

module _ (settings : Settings) (rt : Runtime) (load : Load)
    (answers : Node → State → AgentUpdate) where
  abbrev pub IsWithin : State → Type 0
  IsWithin s = s.rag_call_count ≤ settings.rag_max_calls_per_session

  retrieve-IsWithin : (s : State) → IsWithin s → IsWithin (retrieve settings rt s)
  unfolding retrieve knowledge_retriever_node
  retrieve-IsWithin s h = ground (arith, h)

  pub effect-IsWithin :
      (n : Node) (s : State) → IsWithin s → IsWithin (node_effect settings rt load answers n s)
  unfolding node_effect memory_loader_node turn_reset merge merge_agent retrieval state_pruner_node
  effect-IsWithin memory_loader s h = ground (arith, h)
  effect-IsWithin supervisor s h = h
  effect-IsWithin final_response s h = h
  effect-IsWithin memory_writer s h = h
  effect-IsWithin state_pruner s h = h
  effect-IsWithin stop s h = h
  effect-IsWithin (agent a) s h = ground (arith, h, retrieve-IsWithin s h)

  stuck_twice : (ts : List String) → is_stuck (ts ++ "data_query" ∷ "data_query" ∷ []) ≡ true
  unfolding is_stuck
  stuck_twice [] = refl
  stuck_twice (t ∷ []) = refl
  stuck_twice (t ∷ u ∷ []) = refl
  stuck_twice (t ∷ u ∷ v ∷ ts) = stuck_twice (u ∷ v ∷ ts)

  added_twice :
      {old new : List String} (ts : List String)
      → old ≡ ts ++ "data_query" ∷ []
      → new ≡ "data_query" ∷ []
      → old ++ new ≡ ts ++ "data_query" ∷ "data_query" ∷ []
  added_twice ts before adds = rw (before, adds) (append_assoc ts _ _)

  nothing_added : {old new all : List String} → old ≡ all → new ≡ [] → old ++ new ≡ all
  nothing_added {all} same silent = rw (same, silent) (append-nil all)

  retrieval-traces :
      (a : Agent) (ok : Bool) (s : State)
      → (retrieval settings rt a ok s).execution_traces ≡ s.execution_traces
  unfolding retrieval retrieve knowledge_retriever_node
  retrieval-traces a ok s = ground arith

  retrieval-iteration :
      (a : Agent) (ok : Bool) (s : State) → (retrieval settings rt a ok s).iteration ≡ s.iteration
  unfolding retrieval retrieve knowledge_retriever_node
  retrieval-iteration a ok s = ground arith

  -- After the first visit of a turn: when a visit of the supervisor finds a trace of the phase
  -- data_query last and adds one more, and the agent after it leaves no trace, then the visit after the
  -- agent ends the turn: the supervisor takes it for a loop, whatever the agent achieved.
  pub silent_agent-ends :
      (a : Agent) (s : State) (ts : List String)
      → 1 ≤ s.iteration
      → s.execution_traces ≡ ts ++ "data_query" ∷ []
      → (supervisor_node settings rt s).execution_traces ≡ "data_query" ∷ []
      → (answers (agent a) (node_effect settings rt load answers supervisor s)).execution_traces
        ≡ []
      → let t =
          node_effect settings rt load answers
            (agent a)
            (node_effect settings rt load answers supervisor s) in
        (supervisor_node settings rt t).next_agent ≡ to end
  unfolding node_effect merge merge_agent
  silent_agent-ends a s ts later before adds silent =
      let t = node_effect settings rt load answers supervisor s in
      let u = answers (agent a) t in
      let r = node_effect settings rt load answers (agent a) t in
      let visits : r.iteration ≡ s.iteration + 1 =
        retrieval-iteration a u.ok t ∙ supervisor_node-iteration settings rt s in
      let all : r.execution_traces ≡ ts ++ "data_query" ∷ "data_query" ∷ [] =
        nothing_added (retrieval-traces a u.ok t ∙ added_twice ts before adds) silent in
      supervisor_node-stuck settings rt r (omega (arith, later, visits)) (rw all (stuck_twice ts))

-- Pruning makes the traces longer: what it keeps is added to what is there.
pub state_pruner_node-grows :
    (s : State)
    → 50 < length s.execution_traces
    → length (state_pruner_node s).execution_traces ≡ length s.execution_traces + 50
unfolding state_pruner_node pruned_traces last_of
state_pruner_node-grows s h =
    let ts = s.execution_traces in
    let kept = length-drop (length ts - 50) ts in
    let all = length-append ts (drop (length ts - 50) ts) in ground (arith, kept, all)
