-- ===== src/Routing/Supervisor.antt =====
-- agents/supervisor.py: `supervisor_node`. Each return of the code is an update here, and all of
-- them go through `_with_structured_routing`. Texts of reasons and of traces are left out; a trace
-- is its phase.
pub mod Limits
pub mod Routes
use water_info.Base.{
  ◌≡◌, refl, ℕ, ◌+◌, String, Bool, true, false, not, ◌&&◌, ◌||◌, Option, none, some, List, [], ◌∷◌,
  ◌++◌, if◌then◌else◌, ◌==◌, string_eq, all, any, ltb, map,
}
use water_info.Platform.Skills.{SkillDefinition, evaluate_quality_gates, lookup_by_intent}
use water_info.Routing.Agents.{Agent, conversation_assistant, knowledge_retriever, end, Field}
use water_info.Routing.Agents
use water_info.Routing.Fallback.{
  Intent, general_chat, station_status, overview, alarm_overview, risk_query, plan_generation,
  resource_dispatch, notification_query, intent_name, workflow_chain, agent_completed,
  deterministic_route,
}
use water_info.Routing.Guard.{enforce_dependencies, or_agent}
use water_info.Routing.Intent.{Re, infer_intent, water_domain_keywords}
use water_info.Routing.Rag.{preempts}
use water_info.Routing.Safety.{Settings, infer_answer_policy, is_text, or_intent, is_end_agent}
use water_info.Routing.State.{
  Next, to, RagTarget, AnswerPolicy, Approval, quality_gate_failure, State, Update,
}
use water_info.Routing.Structured.{with_structured_routing}
use water_info.Routing.Text.{contains_any}

-- A validated `SupervisorDecision`; an empty intent or station is `none`.
pub record SupervisorDecision : Type 0 where
  pub next_agent : Agent
  pub intent : Option Intent
  pub focus_station_query : Option String

-- What is not the supervisor's own: Python's texts and hashes, the registry's skills, and the model,
-- whose answer is `none` when the call, the parsing or the validation fails.
pub record Runtime : Type 0 where
  pub re : Re
  pub strip : String → String
  pub query_hash : String → String
  pub digits : String → Option ℕ
  pub float_of : String → ℕ
  pub skills : List SkillDefinition
  pub llm_is_enabled : Bool
  pub llm_answer : State → Option SupervisorDecision
  pub new_uuid : String

unfoldable pub intent_iteration_limit : Intent → ℕ
intent_iteration_limit general_chat = 2
intent_iteration_limit station_status = 4
intent_iteration_limit alarm_overview = 4
intent_iteration_limit risk_query = 6
intent_iteration_limit overview = 6
intent_iteration_limit plan_generation = 10
intent_iteration_limit resource_dispatch = 8
intent_iteration_limit notification_query = 8
intent_iteration_limit _ = 8

-- The last two traces are both of the phase data_query.
unfoldable pub is_stuck : List String → Bool
is_stuck [] = false
is_stuck (p ∷ []) = false
is_stuck (p ∷ q ∷ []) = p == "data_query" && q == "data_query"
is_stuck (p ∷ q ∷ r ∷ ps) = is_stuck (q ∷ r ∷ ps)

unfoldable pub first_not_completed : (Field → Bool) → List Agent → Option Agent
unfolding agent_completed
first_not_completed state [] = none
first_not_completed state (a ∷ agents) =
    let rest = first_not_completed state agents in
    if not (agent_completed state a) then some a else rest

unfoldable pub head_or_end : List Agent → Agent
head_or_end [] = end
head_or_end (a ∷ agents) = a

-- `state.get("skill_agent_sequence") or skill.agent_sequence`
unfoldable pub or_sequence : List Agent → List Agent → List Agent
or_sequence [] agents = agents
or_sequence (a ∷ rest) agents = a ∷ rest

unfoldable pub is_general_chat : Intent → Bool
is_general_chat general_chat = true
is_general_chat _ = false

unfoldable pub is_end : Option Agent → Bool
unfolding is_end_agent
is_end none = false
is_end (some a) = is_end_agent a

-- The keys of an update that every return has, and no others.
unfoldable pub plain_update : ℕ → Agent → Update
plain_update iteration next = record {
  next_agent = to next;
  iteration = iteration;
  intent = none;
  focus_station_query = none;
  answer_policy = none;
  rag_target = none;
  skill_agent_sequence = none;
  routing_decision = none;
  safety_level = none;
  human_confirmation_required = none;
  pending_approvals = none;
  human_review = none;
  execution_traces = [];
}

-- What the supervisor infers before it decides: the intent, the station, and the policy.
pub record Inferred : Type 0 where
  pub intent : Intent
  pub focus_station : Option String
  pub policy : AnswerPolicy
  pub traces : List String

-- `next_agent`, `intent` and `focus_station_query` of the model's answer, or of the fallback.
pub record Choice : Type 0 where
  pub next_agent : Agent
  pub intent : Intent
  pub focus_station : Option String

unfoldable pub or_station : Option String → Option String → Option String
or_station none s = s
or_station (some t) s = some t

unfoldable pub or_policy : Option AnswerPolicy → AnswerPolicy → AnswerPolicy
or_policy none p = p
or_policy (some p) q = p

module _ (settings : Settings) (rt : Runtime) where
  unfoldable pub inferred : State → Inferred
  unfolding or_intent infer_intent or_station or_policy infer_answer_policy
  inferred s =
      let policy = or_policy s.answer_policy (infer_answer_policy rt.digits s.user_query) in
      record {
        intent = or_intent s.intent (infer_intent rt.re s.user_query);
        focus_station = or_station s.focus_station_query (rt.re.station s.user_query);
        policy = policy;
        traces = if policy.data_only then "data_query" ∷ "data_query" ∷ [] else "data_query" ∷ [];
      }

  -- A return with the intent, the station, the policy and the traces.
  unfoldable pub full_update : ℕ → Agent → Inferred → Update
  unfolding plain_update
  full_update iteration next i = record (plain_update iteration next) {
    intent = some i.intent;
    focus_station_query = some i.focus_station;
    answer_policy = some i.policy;
    execution_traces = i.traces;
  }

  -- The update of `_rag_preempt`, which has no policy and no traces of its own.
  unfoldable pub rag_update : ℕ → RagTarget → Intent → Option String → Update
  unfolding plain_update
  rag_update iteration target intent station = record (plain_update iteration knowledge_retriever) {
    intent = some intent;
    focus_station_query = some station;
    rag_target = some target;
  }

  -- `_skill_route` once the agents of the sequence have completed
  unfoldable pub skill_finished : State → SkillDefinition → List Agent → Update → Update
  unfolding evaluate_quality_gates all head_or_end
  skill_finished s skill sequence u =
      let results = evaluate_quality_gates rt.float_of skill s.values in
      let failed = not (all (λ r. r.1) results) in
      if failed && skill.fallback_strategy == "retry"
      then record u { next_agent = to (head_or_end sequence) }
      else if failed && skill.fallback_strategy == "escalate_to_human"
      then record u {
        next_agent = to end;
        human_confirmation_required = some true;
        pending_approvals = some (quality_gate_failure skill.id results ∷ []);
      }
      else record u { next_agent = to end }

  unfoldable pub skill_next : State → SkillDefinition → List Agent → Option Agent → Update → Update
  unfolding skill_finished
  skill_next s skill sequence (some a) u = record u { next_agent = to a }
  skill_next s skill sequence none u = skill_finished s skill sequence u

  unfoldable pub skill_update : State → Update → Option SkillDefinition → Option Update
  unfolding or_sequence first_not_completed skill_next
  skill_update s u none = none
  skill_update s u (some skill) =
      let sequence = or_sequence s.skill_agent_sequence skill.agent_sequence in
      let next = first_not_completed s.present sequence in
      some (skill_next s skill sequence next (record u { skill_agent_sequence = some sequence }))

  -- `_skill_route`, with the keys that the supervisor adds to its result
  unfoldable pub skill_route : State → Inferred → Option Update
  unfolding skill_update lookup_by_intent intent_name full_update
  skill_route s i =
      let u = full_update (s.iteration + 1) end i in
      if settings.skill_registry_enabled
      then skill_update s u (lookup_by_intent rt.skills (intent_name i.intent))
      else none

  -- The retriever in place of the next agent, when `_rag_preempt` has an update.
  unfoldable pub preempted : Option RagTarget → ℕ → Inferred → Update → Update
  unfolding rag_update
  preempted none iteration i u = u
  preempted (some target) iteration i u = rag_update iteration target i.intent i.focus_station

  -- The agent of an update; the supervisor's own updates have one.
  unfoldable pub agent_of : Next → Agent
  agent_of (to a) = a
  agent_of _ = end

  unfoldable pub preempts_next : State → Agent → Option RagTarget
  unfolding preempts
  preempts_next s a = preempts settings rt.strip rt.query_hash s a

  unfoldable pub with_skill : State → Inferred → Update → Update
  unfolding preempted preempts_next agent_of
  with_skill s i u =
      let v = preempted (preempts_next s (agent_of u.next_agent)) (s.iteration + 1) i u in
      record v { answer_policy = some i.policy; execution_traces = i.traces }

  -- The state's own intent, while its chain is not complete.
  unfoldable pub unfinished : (Field → Bool) → Intent → Bool
  unfolding workflow_chain all agent_completed
  unfinished state intent = elim (workflow_chain intent) [
    | none ↦ false
    | some chain ↦ not (all (agent_completed state) chain)
  ]

  unfoldable pub kept_intent : State → Option Intent → Intent → Intent
  unfolding unfinished or_intent
  kept_intent s answered guess = elim s.intent [
    | none ↦ or_intent answered guess
    | some existing ↦ if unfinished s.present existing then existing else or_intent answered guess
  ]

  -- The model's answer behind the guard, or the fallback.
  unfoldable pub choose : State → Inferred → Option Agent → Option SupervisorDecision → Choice
  unfolding or_agent enforce_dependencies kept_intent or_station
  choose s i deterministic none = record {
    next_agent = or_agent deterministic end;
    intent = i.intent;
    focus_station = i.focus_station;
  }
  choose s i deterministic (some d) = record {
    next_agent = (enforce_dependencies s.present d.next_agent deterministic).0;
    intent = kept_intent s d.intent i.intent;
    focus_station = or_station d.focus_station_query i.focus_station;
  }

  unfoldable pub with_model : State → Inferred → Choice → Update
  unfolding preempted preempts_next full_update
  with_model s i c =
      let j = record i { intent = c.intent; focus_station = c.focus_station } in
      let u = full_update (s.iteration + 1) c.next_agent j in
      let v = preempted (preempts_next s c.next_agent) (s.iteration + 1) j u in
      record v { execution_traces = i.traces }

  unfoldable pub without_model : State → Inferred → Agent → Update
  unfolding preempted preempts_next full_update
  without_model s i next =
      preempted (preempts_next s next) (s.iteration + 1) i (full_update (s.iteration + 1) next i)

  unfoldable pub has_results : (Field → Bool) → Bool
  has_results state =
      state Agents.risk_assessment
      || state Agents.emergency_plan
      || state Agents.resource_plan
      || state Agents.notifications

  -- An end that was reached by the workflow, with its trace.
  unfoldable pub finished : State → Inferred → Update
  unfolding full_update
  finished s i =
      full_update (s.iteration + 1) end (record i { traces = i.traces ++ "final_response" ∷ [] })

  -- from `_skill_route` to the last return
  unfoldable pub routed : State → Inferred → Option Agent → Option Update → Update
  unfolding with_skill is_end has_results finished without_model or_agent with_model choose
  routed s i deterministic (some u) = with_skill s i u
  routed s i deterministic none =
      if is_end deterministic && has_results s.present
      then finished s i
      else if not rt.llm_is_enabled
      then without_model s i (or_agent deterministic end)
      else with_model s i (choose s i deterministic (rt.llm_answer s))

  unfoldable pub decide : State → Update
  unfolding inferred intent_iteration_limit is_stuck is_text plain_update finished is_general_chat
      contains_any full_update deterministic_route skill_route routed
  decide s =
      let i = inferred s in
      let iteration = s.iteration + 1 in
      if ltb (intent_iteration_limit i.intent) iteration
      then plain_update iteration end
      else if ltb 2 iteration && is_stuck s.execution_traces
      then plain_update iteration end
      else if is_text s.error
      then plain_update iteration end
      else if i.policy.data_only && s.present Agents.data_summary
      then finished s i
      else if is_general_chat i.intent && not (contains_any s.user_query water_domain_keywords)
      then full_update iteration conversation_assistant i
      else routed s i (deterministic_route s.present i.intent i.policy.data_only) (skill_route s i)

  unfoldable pub supervisor_node : State → Update
  unfolding decide with_structured_routing
  supervisor_node s = with_structured_routing settings rt.re rt.new_uuid (decide s) s s.user_query
