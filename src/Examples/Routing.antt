-- ===== src/Examples/Routing.antt =====
-- Routes from a concrete state.
use water_info.Base.{◌≡◌, refl, ◌≢◌, Bool, true, false, none, some, ◌⊎◌, string_eq}
use water_info.Routing.Agents.{
  Agent, risk_assessor, end, Field, data_summary, risk_assessment, emergency_plan, resource_plan,
  notifications, compliance_result, safety_check_result, execution_progress,
}
use water_info.Routing.Guard.{exempt, enforce_dependencies, Ready, enforce_dependencies-Ready}
use water_info.Routing.Fallback.{
  plan_generation, deterministic_route, deterministic_route-plan_generation,
}

-- The data is there, and nothing else.
abbrev state : Field → Bool
state data_summary = true
state risk_assessment = false
state emergency_plan = false
state resource_plan = false
state notifications = false
state compliance_result = false
state safety_check_result = false
state execution_progress = false

assessor_passes : enforce_dependencies state risk_assessor none ≡ (risk_assessor, none)
unfolding enforce_dependencies
assessor_passes = refl

enforce_dependencies-Ready_example :
    (risk_assessor ≡ risk_assessor) × ((exempt risk_assessor ≡ true) ⊎ Ready state risk_assessor)
enforce_dependencies-Ready_example =
    enforce_dependencies-Ready state risk_assessor none risk_assessor assessor_passes

deterministic_route-plan_generation_example :
    (a : Agent) × (deterministic_route state plan_generation false ≡ some a)
    × (enforce_dependencies state a none ≡ (a, none))
    × (a ≢ end)
deterministic_route-plan_generation_example = deterministic_route-plan_generation state none refl
