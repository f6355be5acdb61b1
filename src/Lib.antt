-- ===== src/Lib.antt =====
-- The AI service of a water-resources emergency system (water-info-ai/app): the review and execution
-- of emergency plans, the platform services for dispatch orders, approvals and audit records, and the
-- supervisor that routes a request through the graph of agents.
--
-- Parts, files and how they correspond to the code:
--
-- Base holds what the other modules share: Boolean tests with an equality interface, lists over the
-- native numbers, a result type, integers with the range of an INT column, and a stable sort.
--
-- The diff (Plan/Snapshot, Plan/Diff) is services/plan_diff.py: `diff_plan` and `_diff_list_section` compare
-- two snapshots of a plan. A dictionary is an association list in the order of insertion. `json.dumps`,
-- `str`, `str.strip` and `uuid4` are the parameter Runtime.
--
-- The tables (Plan/Tables) are the schema of database.py (`ensure_plan_tables`): a table is the list of its rows.
-- A transaction (Plan/Tx) is a call inside `conn.transaction()`: a function of the database into a result and a
-- database; an exception gives the tables back as they were and keeps what was drawn from a sequence.
--
-- The patches (Plan/Patch) are `_apply_patch` and the three `_apply_*_patch` of services/plan_review.py, with the
-- validation, the identifiers and the order of the statements. The review (Plan/Review) is `edit_draft`,
-- `edit_approved` and `approve`: the row lock, the gates on status and version, the patch, the diff,
-- the audit tables and the new version. A row lock makes a transaction on a plan one step, so that
-- concurrent calls are a sequence of steps (Plan/Review/Trail.History).
--
-- The execution (Plan/Execution) is the endpoints of main.py that execute, report on, cancel and delete a plan, and
-- `_sync_plan_status_from_actions`. Here each statement is a transaction of its own, and a call is
-- modelled as run without another call between its statements.
--
-- Platform/Dispatch, Validator, Approvals, Gateway, Idempotency and Recorder are the modules of
-- platform/ of the same names (dispatch_state_machine.py, dispatch_validator.py, approvals.py,
-- human_in_the_loop.py, resume_idempotency.py, audit_recorder.py).
--
-- Routing/Agents and Routing/Guard are the tables and `enforce_dependencies` of
-- agents/_routing_rules.py, Routing/Intent its keyword rules and `infer_intent`, Routing/Topology is
-- `select_profile` of agents/_topology.py. The rest of Routing is the supervisor and its graph: Routing/Fallback is
-- `_deterministic_route`, Routing/Safety the levels of safety and the context of an agent, Routing/Structured
-- `_with_structured_routing`, Routing/Rag `_should_invoke_rag`, and Routing/Supervisor `supervisor_node`, all of
-- agents/supervisor.py; Routing/State is state.py with what a node returns merged into it. Routing/Graph is
-- graph.py with agents/memory.py, agents/state_pruner.py and the budget of agents/knowledge_retriever.py: `run`
-- goes through the nodes, and what an agent answers is any function. The searches of
-- agents/plan_reviewer.py are counted beside those of the retriever.
--
-- Platform/Skills is platform/skill_registry.py and the quality gates of platform/skill_executor.py,
-- Platform/Session is services/session.py over Redis.
--
-- Endpoints composes the parts as main.py does: Review is the endpoints that edit and approve a plan,
-- Approval and Interrupt are an interrupted turn from the supervisor to the run after its approval, and
-- Resume is `resume_session`. In Approval/Races other requests run between the read
-- and the update of `resolve_approval`.
--
-- Retrieval is `hybrid_search` of rag/retriever.py: Rewrite the variants of a query (rag/query_rewriter.py),
-- Rows and Search the fusion of two rankings and the selection with the filter of rag/models.py (Filter),
-- Rerank rag/reranker.py, and Hybrid the whole search over parameters for the embedder and the database.
-- Splitter is the splitting of documents of rag/splitter.py. Agents holds the agents that compute by rules: agents/safety_checker.py,
-- and the merge of agents/validation_parallel.py and agents/risk_analysis_parallel.py.
--
-- Examples applies the theorems to concrete data.
--
-- Bounds: a version has to fit an INT column (32 bits), and texts their VARCHAR columns; a statement
-- that does not fit raises. Loops are structural recursion over lists. Only the graph's run has fuel, the
-- number of nodes; 25 are enough, since the supervisor ends a turn at its eleventh visit at the latest.
--
-- Not modelled: the HTTP layer, the language model and its prompts, what the other agents compute, the
-- embedding of documents, the long-term memory, the risk scan, the observability code, the Vue
-- client and the Java platform. A node that raises ends the run of the graph and has no step in it. A
-- patch is modelled with members of the JSON types that the client sends; identifiers that are neither
-- numbers nor texts are left out. SQL leaves open the order of buffered changes with equal times, and
-- any order is allowed here (the field scan of Db). Floats are a parameter with the operations that the code uses.
pub mod Base
pub mod Plan
pub mod Platform
pub mod Routing
pub mod Examples
pub mod Endpoints
pub mod Retrieval
pub mod Agents
