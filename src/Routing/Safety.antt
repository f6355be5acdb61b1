-- ===== src/Routing/Safety.antt =====
-- agents/supervisor.py: the policy for an answer, the level of safety of a route, the context that
-- an agent needs, and `_with_structured_routing`.
use water_info.Base.{
  ℕ, String, Bool, true, false, not, ◌&&◌, ◌||◌, Option, none, some, List, [], ◌∷◌, if◌then◌else◌,
  keep, leb, ◌==◌, string_eq,
}
use water_info.Routing.Agents.{
  Agent, data_analyst, risk_assessor, plan_generator, resource_dispatcher, notification,
  parallel_dispatch, risk_analysis_parallel, validation_parallel, knowledge_retriever,
  execution_monitor, end, data_summary, risk_assessment, emergency_plan,
}
use water_info.Routing.Fallback.{Intent}
use water_info.Routing.Intent.{data_only_keywords, data_lookup_keywords}
use water_info.Routing.State.{
  SafetyLevel, normal, elevated, high, critical, Next, unset, interrupt, to, AnswerPolicy, Context,
  field, State,
}
use water_info.Routing.Text.{contains, contains_any}

-- `get_settings()`: the flags and the bound that routing reads.
pub record Settings : Type 0 where
  pub structured_output_enabled : Bool
  pub dynamic_topology_enabled : Bool
  pub hitl_enabled : Bool
  pub skill_registry_enabled : Bool
  pub rag_preflight_risk_enabled : Bool
  pub rag_max_calls_per_session : ℕ

-- `_extract_requested_count`, where `digits` is the number that one of the two patterns finds
unfoldable pub extract_requested_count : Option ℕ → ℕ
extract_requested_count none = 1
extract_requested_count (some n) =
    let capped = if leb n 50 then n else 50 in if leb 1 capped then capped else 1

unfoldable pub infer_metric_type : String → Option String
unfolding contains_any
infer_metric_type query =
    if contains_any query ("水位" ∷ "水深" ∷ [])
    then some "WATER_LEVEL"
    else if contains_any query ("雨量" ∷ "降雨" ∷ "雨情" ∷ [])
    then some "RAINFALL"
    else if contains_any query ("流量" ∷ "流速" ∷ [])
    then some "FLOW"
    else none

-- `suppress_risk` and `suppress_summary` are copies of `data_only`.
unfoldable pub infer_answer_policy : (String → Option ℕ) → String → AnswerPolicy
unfolding contains_any contains extract_requested_count infer_metric_type
infer_answer_policy digits query =
    let data_only = contains_any query data_only_keywords in
    let found = contains query "最新" || contains query "数据库" || contains query "数据" in
    record {
      data_only = data_only;
      data_lookup = data_only || (contains_any query data_lookup_keywords && found);
      requested_count = extract_requested_count (digits query);
      metric_type = infer_metric_type query;
    }

abbrev pub high_risk_action_keywords : List String
high_risk_action_keywords = "疏散" ∷ "撤离" ∷ "封路" ∷ "道路封闭" ∷ "停运" ∷ "停课" ∷ "停工" ∷ "服务暂停" ∷ []

abbrev pub elevated_action_keywords : List String
elevated_action_keywords = "响应升级" ∷ "提升响应" ∷ "外部通知" ∷ "发布通知" ∷ "调度" ∷ "派遣" ∷ []

-- `next_agent in {"resource_dispatcher", "notification"}`
unfoldable pub acts_outside : Next → Bool
acts_outside (to resource_dispatcher) = true
acts_outside (to notification) = true
acts_outside _ = false

-- `next_agent in {"plan_generator", "risk_assessor", "parallel_dispatch"}`
unfoldable pub plans : Next → Bool
plans (to plan_generator) = true
plans (to risk_assessor) = true
plans (to parallel_dispatch) = true
plans _ = false

unfoldable pub infer_safety_level : String → Next → SafetyLevel
unfolding contains_any acts_outside plans
infer_safety_level query next_agent =
    if contains_any query high_risk_action_keywords
    then critical
    else if acts_outside next_agent || contains_any query elevated_action_keywords
    then high
    else if plans next_agent
    then elevated
    else normal

unfoldable pub required_context_for_agent : Next → List Context
required_context_for_agent (to data_analyst) = Context.user_query ∷ []
required_context_for_agent (to risk_assessor) = field data_summary ∷ []
required_context_for_agent (to risk_analysis_parallel) = field data_summary ∷ []
required_context_for_agent (to plan_generator) =
    field risk_assessment ∷ Context.evidence_context ∷ []
required_context_for_agent (to resource_dispatcher) = field emergency_plan ∷ []
required_context_for_agent (to notification) = field emergency_plan ∷ []
required_context_for_agent (to validation_parallel) = field emergency_plan ∷ []
required_context_for_agent (to execution_monitor) = Context.session_id ∷ []
required_context_for_agent (to knowledge_retriever) = Context.user_query ∷ []
required_context_for_agent _ = []

unfoldable pub is_text : String → Bool
is_text s = not (s == "")

-- The test of one context in the loop of `_missing_context_for_agent`
unfoldable pub is_missing : State → Context → Bool
unfolding is_text
is_missing s (field f) = not (s.present f)
is_missing s Context.user_query = not (is_text s.user_query)
is_missing s Context.session_id = not (is_text s.session_id)
is_missing s Context.evidence_context = false

unfoldable pub missing_context_for_agent : Next → State → List Context → List Context
unfolding keep is_missing
missing_context_for_agent (to end) s required = []
missing_context_for_agent _ s required = keep (is_missing s) required

-- `update.get("next_agent") or "__end__"`
unfoldable pub or_end : Next → Next
or_end unset = to end
or_end n = n

unfoldable pub or_intent : Option Intent → Intent → Intent
or_intent none i = i
or_intent (some i) j = i

unfoldable pub is_set : Option Bool → Bool
is_set none = false
is_set (some b) = b

unfoldable pub is_critical : SafetyLevel → Bool
is_critical critical = true
is_critical _ = false

-- `_require_confirmation_for_high_safety`
unfoldable pub needs_confirmation : SafetyLevel → Bool
needs_confirmation high = true
needs_confirmation critical = true
needs_confirmation _ = false

unfoldable pub is_end_agent : Agent → Bool
is_end_agent end = true
is_end_agent _ = false

-- `next_agent not in {"__end__", "__interrupt__"}`
unfoldable pub continues : Next → Bool
unfolding is_end_agent
continues interrupt = false
continues unset = true
continues (to a) = not (is_end_agent a)
