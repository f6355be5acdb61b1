-- ===== src/Routing/Graph/Termination.antt =====
-- graph.py: every turn ends.
use water_info.Base.{
  ◌≡◌, refl, ℕ, zero, suc, ◌+◌, ◌≤◌, Bool-cases, ◌||◌, arith, inl, inr, ◌⊎◌, Option, none, some,
}
use water_info.Routing.Agents.{Agent, end}
use water_info.Routing.Rag.{is_retriever}
use water_info.Routing.Safety.{Settings}
use water_info.Routing.State.{
  Next, unset, interrupt, to, State, merge, RagTarget, answer, preflight_plan, preflight_risk,
}
use water_info.Routing.Supervisor.{Runtime, is_end}
use water_info.Routing.Supervisor.Limits.{supervisor_node-iteration, supervisor_node-limit}
use water_info.Routing.Text.{starts_with}
use water_info.Routing.Graph.{
  Node, supervisor, final_response, stop, agent, AgentUpdate, merge_agent, Load, route_from_agent,
  route_from_supervisor, route_from_retriever, retrieve, knowledge_retriever_node, retrieval,
  node_effect, next_node, run, memory_loader, ends, route_from_memory_loader, is_conversation,
}

module _ (settings : Settings) (rt : Runtime) (load : Load)
    (answers : Node → State → AgentUpdate) where
  -- Nodes enough for k more visits of the supervisor and one that ends.
  abbrev nodes_for : ℕ → ℕ
  nodes_for zero = 4
  nodes_for (suc k) = suc (suc (nodes_for k))

  run-stop : (n : ℕ) (s : State) → (run settings rt load answers n stop s).0 ≡ stop
  unfolding run node_effect next_node
  run-stop zero s = refl
  run-stop (suc n) s = run-stop n s

  run-final :
      (n : ℕ) (s : State) → 3 ≤ n → (run settings rt load answers n final_response s).0 ≡ stop
  unfolding run node_effect next_node
  run-final zero s h = absurd (omega (arith, h))
  run-final (suc zero) s h = absurd (omega (arith, h))
  run-final (suc (suc zero)) s h = absurd (omega (arith, h))
  run-final (suc (suc (suc n))) s h = run-stop n _

  retrieve-iteration : (s : State) → (retrieve settings rt s).iteration ≡ s.iteration
  unfolding retrieve knowledge_retriever_node
  retrieve-iteration s = ground arith

  effect-iteration :
      (a : Agent) (s : State)
      → (node_effect settings rt load answers (agent a) s).iteration ≡ s.iteration
  unfolding node_effect merge_agent retrieval
  effect-iteration a s = ground (arith, retrieve-iteration s)

  nodes_for-ge : (k : ℕ) → 4 ≤ nodes_for k
  nodes_for-ge zero = omega arith
  nodes_for-ge (suc k) = omega (arith, nodes_for-ge k)

  -- After an agent there is the supervisor, or the last answer.
  retriever-next :
      (o : Option RagTarget)
      → (route_from_retriever o ≡ supervisor) ⊎ (route_from_retriever o ≡ final_response)
  unfolding route_from_retriever
  retriever-next none = inr refl
  retriever-next (some answer) = inr refl
  retriever-next (some preflight_plan) = inl refl
  retriever-next (some preflight_risk) = inl refl

  agent-next :
      (a : Agent) (s : State)
      → (route_from_agent a s ≡ supervisor) ⊎ (route_from_agent a s ≡ final_response)
  unfolding route_from_agent
  agent-next a s = elim (Bool-cases (is_conversation a)) [
    | inl talks ↦ rw talks (inr refl)
    | inr silent ↦ elim (Bool-cases (is_retriever a)) [
      | inl retrieves ↦ rw (silent, retrieves) (retriever-next s.rag_target)
      | inr works ↦ rw (silent, works) (inl refl)
    ]
  ]

  follow :
      (n : ℕ) (m : Node) (t : State)
      → (m ≡ supervisor) ⊎ (m ≡ final_response)
      → (run settings rt load answers n supervisor t).0 ≡ stop
      → 3 ≤ n
      → (run settings rt load answers n m t).0 ≡ stop
  follow n m t (inl back) stops h = rw back stops
  follow n m t (inr answered) stops h = rw answered (run-final n t h)

  -- A visit that does not end the turn is followed by an agent.
  after_agent :
      (k : ℕ) (a : Agent) (s : State)
      → ((t : State)
          → t.iteration ≡ s.iteration
          → (run settings rt load answers (nodes_for k) supervisor t).0 ≡ stop)
      → (run settings rt load answers (suc (nodes_for k)) (agent a) s).0 ≡ stop
  unfolding run next_node
  after_agent k a s rest =
      let t = node_effect settings rt load answers (agent a) s in
      follow (nodes_for k) (route_from_agent a t) t (agent-next a t) (rest t (effect-iteration a s))
        (omega (arith, nodes_for-ge k))

  from_supervisor :
      (n : ℕ) (next : Next) (t : State)
      → ((a : Agent) → (run settings rt load answers n (agent a) t).0 ≡ stop)
      → 3 ≤ n
      → (run settings rt load answers n (route_from_supervisor next) t).0 ≡ stop
  unfolding route_from_supervisor
  from_supervisor n unset t go h = run-final n t h
  from_supervisor n interrupt t go h = run-stop n t
  from_supervisor n (to a) t go h = elim (Bool-cases (is_end (some a))) [
    | inl ends ↦ rw ends (run-final n t h)
    | inr goes ↦ rw goes (go a)
  ]

  visited : State → State
  unfolding node_effect
  visited s = node_effect settings rt load answers supervisor s

  visited-iteration : (s : State) → (visited s).iteration ≡ s.iteration + 1
  unfolding visited node_effect merge
  visited-iteration s = supervisor_node-iteration settings rt s

  visited-end : (s : State) → 10 ≤ s.iteration → (visited s).next_agent ≡ to end
  unfolding visited node_effect merge
  visited-end s h = supervisor_node-limit settings rt s h

  from_end :
      (t : State)
      → t.next_agent ≡ to end
      → (run settings rt load answers 3 (route_from_supervisor t.next_agent) t).0 ≡ stop
  unfolding route_from_supervisor is_end run node_effect next_node
  from_end t ends = rw ends refl

  run-supervisor :
      (k : ℕ) (s : State)
      → 10 ≤ s.iteration + k
      → (run settings rt load answers (nodes_for k) supervisor s).0 ≡ stop
  unfolding run next_node visited
  run-supervisor zero s h = let ends = visited-end s (omega (arith, h)) in from_end (visited s) ends
  run-supervisor (suc k) s h =
      let t = visited s in
      from_supervisor (suc (nodes_for k)) t.next_agent t
        (λ a.
          after_agent k a t
            (λ u same. run-supervisor k u (omega (arith, h, same, visited-iteration s))))
        (omega (arith, nodes_for-ge k))

  from_loader :
      (n : ℕ) (t : State)
      → (run settings rt load answers n supervisor t).0 ≡ stop
      → (run settings rt load answers n (route_from_memory_loader t) t).0 ≡ stop
  unfolding route_from_memory_loader
  from_loader n t stops =
      elim (Bool-cases (starts_with t.error "memory_load_failed:" || ends t.next_agent)) [
        | inl fails ↦ rw fails (run-stop n t)
        | inr goes ↦ rw goes stops
      ]

  -- Every turn ends: from the loader, 25 nodes are enough, whatever the agents, the model and the
  -- memory answer, and wherever the iteration stands.
  pub run-stops : (s : State) → (run settings rt load answers 25 memory_loader s).0 ≡ stop
  unfolding run next_node
  run-stops s =
      let t = node_effect settings rt load answers memory_loader s in
      from_loader 24 t (run-supervisor 10 t (omega arith))
