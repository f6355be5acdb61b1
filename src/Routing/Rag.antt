-- ===== src/Routing/Rag.antt =====
-- agents/supervisor.py: `_should_invoke_rag` and `_rag_preempt`, which put the knowledge retriever
-- before the next agent.
use water_info.Base.{
  ◌≡◌, refl, ◌<◌, String, Bool, true, false, ◌&&◌, ◌||◌, Option, none, some, if◌then◌else◌, ◌==◌,
  string_eq, any, leb, Bool-cases, inl, inr, arith,
}
use water_info.Routing.Agents.{
  Agent, risk_assessor, plan_generator, conversation_assistant, knowledge_retriever,
  execution_monitor, risk_analysis_parallel, end,
}
use water_info.Routing.Fallback.{Intent, knowledge_qa}
use water_info.Routing.Intent.{knowledge_keywords}
use water_info.Routing.Safety.{Settings}
use water_info.Routing.State.{
  RiskLevel, moderate, high_risk, critical_risk, RagTarget, answer, preflight_plan, preflight_risk,
  State,
}
use water_info.Routing.Text.{contains_any}

-- `level in _RAG_GROUNDING_RISK`
unfoldable pub is_grounding_risk : RiskLevel → Bool
is_grounding_risk moderate = true
is_grounding_risk high_risk = true
is_grounding_risk critical_risk = true
is_grounding_risk _ = false

unfoldable pub is_knowledge_qa : Option Intent → Bool
is_knowledge_qa (some knowledge_qa) = true
is_knowledge_qa _ = false

unfoldable pub is_retriever : Agent → Bool
is_retriever knowledge_retriever = true
is_retriever _ = false

unfoldable pub is_plan_generator : Agent → Bool
is_plan_generator plan_generator = true
is_plan_generator _ = false

unfoldable pub is_risk_assessor : Agent → Bool
is_risk_assessor risk_assessor = true
is_risk_assessor _ = false

-- The agents that are never preceded; of the set in the code the retriever is taken out again.
unfoldable pub not_preempted : Agent → Bool
not_preempted end = true
not_preempted conversation_assistant = true
not_preempted execution_monitor = true
not_preempted risk_analysis_parallel = true
not_preempted _ = false

-- `strip` and `query_hash` (sha1 of the stripped query in lower case) are Python's.
module _ (settings : Settings) (strip query_hash : String → String) where
  -- the tests after the budget and the cache
  unfoldable pub rag_mode : State → Agent → Option RagTarget
  unfolding is_knowledge_qa is_retriever is_plan_generator is_risk_assessor is_grounding_risk
      contains_any
  rag_mode s next =
      if is_knowledge_qa s.intent || is_retriever next
      then some answer
      else if s.has_evidence
      then none
      else if is_plan_generator next && is_grounding_risk s.risk_level
      then some preflight_plan
      else if settings.rag_preflight_risk_enabled
          && is_risk_assessor next
          && contains_any (strip s.user_query) knowledge_keywords
      then some preflight_risk
      else none

  unfoldable pub should_invoke_rag : State → Agent → Option RagTarget
  unfolding rag_mode any
  should_invoke_rag s next =
      let query = strip s.user_query in
      if query == ""
      then none
      else if leb settings.rag_max_calls_per_session s.rag_call_count
      then none
      else if any (λ h. h == query_hash query) s.rag_query_cache
      then none
      else rag_mode s next

  -- `_rag_preempt`, up to the update that it builds
  unfoldable pub preempts : State → Agent → Option RagTarget
  unfolding not_preempted should_invoke_rag
  preempts s next = if not_preempted next then none else should_invoke_rag s next

  pub preempts-end : (s : State) → preempts s end ≡ none
  unfolding preempts not_preempted
  preempts-end s = refl

  -- A retrieval is put first only while the budget lasts, for a query that is not empty and not in
  -- the cache.
  pub preempts-Budget :
      (s : State) (next : Agent) (t : RagTarget)
      → preempts s next ≡ some t
      → (s.rag_call_count < settings.rag_max_calls_per_session)
        × ((strip s.user_query == "") ≡ false)
        × (any (λ h. h == query_hash (strip s.user_query)) s.rag_query_cache ≡ false)
  unfolding preempts should_invoke_rag
  preempts-Budget s next t h = elim (Bool-cases (not_preempted next)) [
    | inl never ↦ cc (rw never at h)
    | inr may ↦ elim (Bool-cases (strip s.user_query == "")) [
      | inl empty ↦ cc (rw (may, empty) at h)
      | inr asked ↦ elim (Bool-cases (leb settings.rag_max_calls_per_session s.rag_call_count)) [
        | inl spent ↦ cc (rw (may, asked, spent) at h)
        | inr left ↦
            elim (Bool-cases (any (λ h. h == query_hash (strip s.user_query)) s.rag_query_cache)) [
              | inl known ↦ cc (rw (may, asked, left, known) at h)
              | inr new ↦ (ground (arith, left), asked, new)
            ]
      ]
    ]
  ]
