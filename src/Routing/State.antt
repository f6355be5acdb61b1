-- ===== src/Routing/State.antt =====
-- state.py and schemas/routing.py: what routing reads and writes of `FloodGraphState`, and how the
-- graph merges the dictionary that a node returns.
use water_info.Base.{ℕ, String, Bool, Option, none, some, List, ◌++◌}
use water_info.Routing.Agents.{Agent, Field}
use water_info.Routing.Fallback.{Intent}
use water_info.Platform.Skills.{Value}

pub data SafetyLevel : Type 0 where
  normal elevated high critical : SafetyLevel

pub data RiskLevel : Type 0 where
  no_risk low moderate high_risk critical_risk : RiskLevel

-- The value of `next_agent`: the empty text, a node or `__end__`, and `__interrupt__`.
pub data Next : Type 0 where
  unset interrupt : Next
  to : Agent → Next

pub data RagTarget : Type 0 where
  answer preflight_plan preflight_risk : RagTarget

pub record AnswerPolicy : Type 0 where
  pub data_only : Bool
  pub data_lookup : Bool
  pub requested_count : ℕ
  pub metric_type : Option String

-- The kinds of dictionary in `pending_approvals`.
pub data Approval : Type 0 where
  critical_action_review :
      (approval_id session_id : String) (original_next_agent : Next) (intent : Intent) → Approval
  quality_gate_failure : (skill_id : String) (failed_gates : List (String × Bool)) → Approval
  high_risk_action : (action_type : String) → Approval

-- `human_review`: an approval and its status.
pub record HumanReview : Type 0 where
  pub approval_id : String
  pub status : String
  pub original_next_agent : Option Next

-- What an agent may need; the field of the state, or one of three others.
pub data Context : Type 0 where
  field : Field → Context
  user_query session_id evidence_context : Context

pub record RoutingDecision : Type 0 where
  pub intent : Intent
  pub next_agent : Next
  pub required_context : List Context
  pub missing_context : List Context
  pub safety_level : SafetyLevel
  pub human_confirmation_required : Bool

-- A key that is missing, or holds an empty value, is `none`. `present` is the truth of each field of
-- the workflow, `risk_level` the level in risk_assessment (NONE without one), `values` what quality
-- gates read, and `execution_traces` the phase of each trace.
pub record State : Type 0 where
  pub session_id : String
  pub user_query : String
  pub iteration : ℕ
  pub next_agent : Next
  pub intent : Option Intent
  pub focus_station_query : Option String
  pub answer_policy : Option AnswerPolicy
  pub present : Field → Bool
  pub risk_level : RiskLevel
  pub values : Value
  pub has_evidence : Bool
  pub rag_target : Option RagTarget
  pub rag_call_count : ℕ
  pub rag_query_cache : List String
  pub skill_agent_sequence : List Agent
  pub safety_level : Option SafetyLevel
  pub human_confirmation_required : Bool
  pub pending_approvals : List Approval
  pub human_review : Option HumanReview
  pub execution_traces : List String
  pub error : String

-- The dictionary that the supervisor returns. A key that it does not have is `none`.
pub record Update : Type 0 where
  pub next_agent : Next
  pub iteration : ℕ
  pub intent : Option Intent
  pub focus_station_query : Option (Option String)
  pub answer_policy : Option AnswerPolicy
  pub rag_target : Option RagTarget
  pub skill_agent_sequence : Option (List Agent)
  pub routing_decision : Option RoutingDecision
  pub safety_level : Option SafetyLevel
  pub human_confirmation_required : Option Bool
  pub pending_approvals : Option (List Approval)
  pub human_review : Option HumanReview
  pub execution_traces : List String

unfoldable pub or_old {ℓ} : {A : Type ℓ} → Option A → A → A
or_old none a = a
or_old (some b) a = b

unfoldable pub or_old_option {ℓ} : {A : Type ℓ} → Option A → Option A → Option A
or_old_option none o = o
or_old_option (some b) o = some b

-- A key of the update replaces the state's; `execution_traces` is added to it.
unfoldable pub merge : Update → State → State
unfolding or_old or_old_option
merge u s = record s {
  next_agent = u.next_agent;
  iteration = u.iteration;
  intent = or_old_option u.intent s.intent;
  focus_station_query = or_old u.focus_station_query s.focus_station_query;
  answer_policy = or_old_option u.answer_policy s.answer_policy;
  rag_target = or_old_option u.rag_target s.rag_target;
  skill_agent_sequence = or_old u.skill_agent_sequence s.skill_agent_sequence;
  safety_level = or_old_option u.safety_level s.safety_level;
  human_confirmation_required = or_old u.human_confirmation_required s.human_confirmation_required;
  pending_approvals = or_old u.pending_approvals s.pending_approvals;
  human_review = or_old_option u.human_review s.human_review;
  execution_traces = s.execution_traces ++ u.execution_traces;
}
