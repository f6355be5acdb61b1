-- ===== src/Routing/Fallback.antt =====
-- agents/supervisor.py: `_deterministic_route`, the fallback when neither a skill nor the model
-- routes. The intent is the one of the state, or the inferred one.
use water_info.Base.{
  ◌≡◌, refl, ◌≢◌, String, Bool, true, false, not, Option, none, some, List, [], ◌∷◌, if◌then◌else◌,
  inl, inr, Bool-cases,
}
use water_info.Routing.Agents.{
  Agent, data_analyst, plan_generator, resource_dispatcher, notification, parallel_dispatch,
  risk_analysis_parallel, validation_parallel, conversation_assistant, knowledge_retriever,
  execution_monitor, end, Field, data_summary, risk_assessment, emergency_plan, compliance_result,
  agent_dependencies, completion_field,
}
use water_info.Routing.Guard.{
  enforce_dependencies, exempt, first_missing, is_complete, after_dependencies,
}

pub data Intent : Type 0 where
  general_chat knowledge_qa station_status overview alarm_overview risk_query : Intent
  plan_generation resource_dispatch notification_query execution_status : Intent
  data_lookup : Intent
  other : String → Intent

-- The text of an intent. `other` holds a text that is none of the standard ones.
unfoldable pub intent_name : Intent → String
intent_name general_chat = "general_chat"
intent_name knowledge_qa = "knowledge_qa"
intent_name station_status = "station_status"
intent_name overview = "overview"
intent_name alarm_overview = "alarm_overview"
intent_name risk_query = "risk_assessment"
intent_name plan_generation = "plan_generation"
intent_name resource_dispatch = "resource_dispatch"
intent_name notification_query = "notification"
intent_name execution_status = "execution_status"
intent_name data_lookup = "data_lookup"
intent_name (other text) = text

-- `_WORKFLOW_CHAINS.get(intent)`
unfoldable pub workflow_chain : Intent → Option (List Agent)
workflow_chain station_status = some (data_analyst ∷ risk_analysis_parallel ∷ [])
workflow_chain overview = some (data_analyst ∷ risk_analysis_parallel ∷ [])
workflow_chain alarm_overview = some (data_analyst ∷ risk_analysis_parallel ∷ [])
workflow_chain risk_query = some (data_analyst ∷ risk_analysis_parallel ∷ [])
workflow_chain plan_generation = some (
    data_analyst ∷ risk_analysis_parallel ∷ plan_generator ∷ validation_parallel ∷ parallel_dispatch
    ∷ [])
workflow_chain resource_dispatch =
    some (data_analyst ∷ risk_analysis_parallel ∷ plan_generator ∷ resource_dispatcher ∷ [])
workflow_chain notification_query =
    some (data_analyst ∷ risk_analysis_parallel ∷ plan_generator ∷ notification ∷ [])
workflow_chain execution_status = some (execution_monitor ∷ [])
workflow_chain general_chat = none
workflow_chain knowledge_qa = none
workflow_chain data_lookup = none
workflow_chain (other _) = none

module _ (state : Field → Bool) where
  -- `_agent_completed`
  unfoldable pub agent_completed : Agent → Bool
  unfolding completion_field is_complete
  agent_completed a = is_complete state (completion_field a)

  unfoldable pub first_incomplete : List Agent → Agent
  unfolding agent_completed
  first_incomplete [] = end
  first_incomplete (a ∷ agents) =
      let rest = first_incomplete agents in if not (agent_completed a) then a else rest

  unfoldable pub along : Option (List Agent) → Option Agent
  unfolding first_incomplete
  along none = none
  along (some chain) = some (first_incomplete chain)

  unfoldable pub bootstrap : Intent → Agent
  bootstrap knowledge_qa = knowledge_retriever
  bootstrap general_chat = conversation_assistant
  bootstrap _ = data_analyst

  unfoldable pub bypass : Intent → Option Agent
  unfolding along workflow_chain
  bypass general_chat = some conversation_assistant
  bypass knowledge_qa = some knowledge_retriever
  bypass intent = along (workflow_chain intent)

  unfoldable pub deterministic_route : Intent → Bool → Option Agent
  unfolding bootstrap bypass
  deterministic_route intent data_only =
      if not (state data_summary)
      then some (bootstrap intent)
      else if data_only
      then some end
      else bypass intent

  -- An agent whose dependencies are there and whose result is not passes the guard.
  passes :
      (a : Agent) (fallback : Option Agent)
      → state data_summary ≡ true
      → first_missing state (agent_dependencies a) ≡ none
      → agent_completed a ≡ false
      → enforce_dependencies state a fallback ≡ (a, none)
  unfolding enforce_dependencies after_dependencies agent_completed
  passes a fallback has all_there not_done = elim (Bool-cases (exempt a)) [
    | inl free ↦ rw free refl
    | inr bound ↦ rw (bound, has, all_there, not_done) refl
  ]

  abbrev plan_chain : List Agent
  plan_chain =
      data_analyst ∷ risk_analysis_parallel ∷ plan_generator ∷ validation_parallel
      ∷ parallel_dispatch ∷ []

  plan_chain-ready :
      state data_summary ≡ true
      → (first_missing state (agent_dependencies (first_incomplete plan_chain)) ≡ none)
        × (agent_completed (first_incomplete plan_chain) ≡ false)
        × (first_incomplete plan_chain ≢ end)
  unfolding first_incomplete agent_completed is_complete completion_field first_missing
      agent_dependencies
  plan_chain-ready has = elim (Bool-cases (state risk_assessment)) [
    | inr no_risk ↦ rw (has, no_risk) (rw has refl, no_risk, λ e. cc)
    | inl risk ↦ elim (Bool-cases (state emergency_plan)) [
      | inr no_plan ↦ rw (has, risk, no_plan) (rw risk refl, no_plan, λ e. cc)
      | inl plan ↦ elim (Bool-cases (state compliance_result)) [
        | inr unchecked ↦ rw (has, risk, plan, unchecked) (rw plan refl, unchecked, λ e. cc)
        | inl checked ↦ rw (has, risk, plan, checked) (rw (risk, plan) refl, refl, λ e. cc)
      ]
    ]
  ]

  -- For a plan, once the data is there and unless only data was asked for, the fallback names a next
  -- agent, never the end, and the guard lets this agent pass: its dependencies are there and its
  -- result is not.
  pub deterministic_route-plan_generation :
      (fallback : Option Agent)
      → state data_summary ≡ true
      → (a : Agent) × (deterministic_route plan_generation false ≡ some a)
        × (enforce_dependencies state a fallback ≡ (a, none))
        × (a ≢ end)
  unfolding deterministic_route bypass along workflow_chain
  deterministic_route-plan_generation fallback has =
      let (all_there, not_done, not_end) = plan_chain-ready has in
      (
        first_incomplete plan_chain,
        rw has refl,
        passes (first_incomplete plan_chain) fallback has all_there not_done,
        not_end,
      )
