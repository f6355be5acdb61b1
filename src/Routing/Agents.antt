-- ===== src/Routing/Agents.antt =====
-- agents/_routing_rules.py: the agents, the fields of the state, and the tables between them.
use water_info.Base.{Option, none, some, List, [], ◌∷◌}

-- The names of the graph's nodes, and `__end__`.
pub data Agent : Type 0 where
  data_analyst risk_assessor plan_generator resource_dispatcher notification : Agent
  plan_reviewer safety_checker parallel_dispatch risk_analysis_parallel : Agent
  validation_parallel conversation_assistant knowledge_retriever execution_monitor : Agent
  end : Agent

pub data Field : Type 0 where
  data_summary risk_assessment emergency_plan resource_plan notifications : Field
  compliance_result safety_check_result execution_progress : Field

-- `AGENT_DEPENDENCIES.get(agent, [])`
unfoldable pub agent_dependencies : Agent → List Field
agent_dependencies data_analyst = []
agent_dependencies risk_assessor = data_summary ∷ []
agent_dependencies plan_generator = risk_assessment ∷ []
agent_dependencies resource_dispatcher = emergency_plan ∷ []
agent_dependencies notification = emergency_plan ∷ []
agent_dependencies plan_reviewer = emergency_plan ∷ []
agent_dependencies safety_checker = emergency_plan ∷ []
agent_dependencies parallel_dispatch = risk_assessment ∷ emergency_plan ∷ []
agent_dependencies risk_analysis_parallel = data_summary ∷ []
agent_dependencies validation_parallel = emergency_plan ∷ []
agent_dependencies conversation_assistant = []
agent_dependencies knowledge_retriever = []
agent_dependencies execution_monitor = []
agent_dependencies end = []

-- `PRODUCER_MAP.get(field)`
unfoldable pub producer_map : Field → Option Agent
producer_map data_summary = some data_analyst
producer_map risk_assessment = some risk_assessor
producer_map emergency_plan = some plan_generator
producer_map resource_plan = some resource_dispatcher
producer_map notifications = some notification
producer_map compliance_result = none
producer_map safety_check_result = none
producer_map execution_progress = none

-- `COMPLETION_FIELD.get(agent)`
unfoldable pub completion_field : Agent → Option Field
completion_field data_analyst = some data_summary
completion_field risk_assessor = some risk_assessment
completion_field plan_generator = some emergency_plan
completion_field resource_dispatcher = some resource_plan
completion_field notification = some notifications
completion_field plan_reviewer = some compliance_result
completion_field safety_checker = some safety_check_result
completion_field execution_monitor = some execution_progress
completion_field risk_analysis_parallel = some risk_assessment
completion_field validation_parallel = some compliance_result
completion_field parallel_dispatch = none
completion_field conversation_assistant = none
completion_field knowledge_retriever = none
completion_field end = none
