-- ===== src/Routing/Guard.antt =====
-- agents/_routing_rules.py: `enforce_dependencies`. A state is the truth value of each field.
use mathlib.Core.Path.{subst}
use water_info.Base.{
  ◌≡◌, refl, Bool, true, false, not, Option, none, some, List, [], ◌∷◌, All, if◌then◌else◌, arith,
  inl, inr, Bool-cases, ◌⊎◌, ◌∙◌,
}
use water_info.Routing.Agents.{
  Agent, data_analyst, risk_assessor, plan_generator, resource_dispatcher, notification,
  plan_reviewer, safety_checker, parallel_dispatch, risk_analysis_parallel, validation_parallel,
  conversation_assistant, knowledge_retriever, execution_monitor, end, Field, data_summary,
  agent_dependencies, producer_map, completion_field,
}

-- Why the agent was replaced.
pub data Guard : Type 0 where
  needs_data : Guard
  missing : Field → Guard
  already_complete : Agent → Guard

-- The agents that are not guarded.
unfoldable pub exempt : Agent → Bool
exempt end = true
exempt conversation_assistant = true
exempt knowledge_retriever = true
exempt execution_monitor = true
exempt _ = false

unfoldable pub or_agent : Option Agent → Agent → Agent
or_agent none b = b
or_agent (some a) b = a

module _ (state : Field → Bool) where
  -- The first of the fields that the state lacks.
  unfoldable pub first_missing : List Field → Option Field
  first_missing [] = none
  first_missing (f ∷ fs) = if not (state f) then some f else first_missing fs

  unfoldable pub is_complete : Option Field → Bool
  is_complete none = false
  is_complete (some f) = state f

  unfoldable pub after_dependencies : Agent → Option Agent → Option Field → Agent × Option Guard
  unfolding is_complete or_agent producer_map completion_field
  after_dependencies next_agent fallback (some f) =
      (or_agent (producer_map f) (or_agent fallback end), some (missing f))
  after_dependencies next_agent fallback none =
      if is_complete (completion_field next_agent)
      then (or_agent fallback end, some (already_complete next_agent))
      else (next_agent, none)

  unfoldable pub enforce_dependencies : Agent → Option Agent → Agent × Option Guard
  unfolding exempt or_agent first_missing after_dependencies agent_dependencies
  enforce_dependencies next_agent fallback =
      if exempt next_agent
      then (next_agent, none)
      else if not (state data_summary)
      then (or_agent fallback data_analyst, some needs_data)
      else after_dependencies next_agent fallback (first_missing (agent_dependencies next_agent))

  -- An agent may run: the data is there, and what it depends on, and its own result is not.
  pub record Ready (a : Agent) : Type 0 where
    pub has_data : state data_summary ≡ true
    pub dependencies : All (λ f. state f ≡ true) (agent_dependencies a)
    pub not_done : is_complete (completion_field a) ≡ false

  none_missing : (fs : List Field) → first_missing fs ≡ none → All (λ f. state f ≡ true) fs
  unfolding first_missing
  none_missing [] h = tt
  none_missing (f ∷ fs) h = elim (Bool-cases (state f)) [
    | inl there ↦ (there, none_missing fs (ground (arith, there, h)))
    | inr gone ↦ ground (arith, gone, h)
  ]

  after-Ready :
      (a : Agent) (fallback : Option Agent) (o : Option Field) (b : Agent)
      → after_dependencies a fallback o ≡ (b, none)
      → (b ≡ a) × (o ≡ none) × (is_complete (completion_field a) ≡ false)
  unfolding after_dependencies
  after-Ready a fallback (some f) b h = cc
  after-Ready a fallback none b h = elim (Bool-cases (is_complete (completion_field a))) [
    | inl done ↦ cc (rw done at h)
    | inr not_done ↦ (cc (rw not_done at h), refl, not_done)
  ]

  -- An agent that passes without a guard is the one asked for, and is exempt or ready to run.
  pub enforce_dependencies-Ready :
      (a : Agent) (fallback : Option Agent) (b : Agent)
      → enforce_dependencies a fallback ≡ (b, none)
      → (b ≡ a) × ((exempt a ≡ true) ⊎ Ready a)
  unfolding enforce_dependencies
  enforce_dependencies-Ready a fallback b h = elim (Bool-cases (exempt a)) [
    | inl free ↦ (cc (rw free at h), inl free)
    | inr bound ↦ elim (Bool-cases (state data_summary)) [
      | inr no_data ↦ cc (rw (bound, no_data) at h)
      | inl has_data ↦
          let (same, all_there, not_done) =
            after-Ready a fallback (first_missing (agent_dependencies a)) b
              (rw (bound, has_data) at h) in
          (
            same,
            inr (record {
              has_data = has_data;
              dependencies = none_missing (agent_dependencies a) all_there;
              not_done = not_done;
            }),
          )
    ]
  ]

  -- The agent that has to run first: it makes the missing field, and can run itself.
  pub record Replaces (f : Field) (b : Agent) : Type 0 where
    pub lacks : state f ≡ false
    pub makes : completion_field b ≡ some f
    pub exempt_not : exempt b ≡ false

  missing-lacks : (fs : List Field) (f : Field) → first_missing fs ≡ some f → state f ≡ false
  unfolding first_missing
  missing-lacks [] f h = cc
  missing-lacks (g ∷ gs) f h = ground (arith, missing-lacks gs f)

  -- A field that has a producer, whose result it is.
  abbrev Made : Field → Type 0
  unfolding producer_map completion_field exempt
  Made f =
      (p : Agent) × (producer_map f ≡ some p) × (completion_field p ≡ some f) × (exempt p ≡ false)

  dependencies-Made : (a : Agent) → All Made (agent_dependencies a)
  unfolding agent_dependencies producer_map completion_field exempt Made
  dependencies-Made data_analyst = tt
  dependencies-Made risk_assessor = ((data_analyst, refl, refl, refl), tt)
  dependencies-Made plan_generator = ((risk_assessor, refl, refl, refl), tt)
  dependencies-Made resource_dispatcher = ((plan_generator, refl, refl, refl), tt)
  dependencies-Made notification = ((plan_generator, refl, refl, refl), tt)
  dependencies-Made plan_reviewer = ((plan_generator, refl, refl, refl), tt)
  dependencies-Made safety_checker = ((plan_generator, refl, refl, refl), tt)
  dependencies-Made parallel_dispatch =
      ((risk_assessor, refl, refl, refl), ((plan_generator, refl, refl, refl), tt))
  dependencies-Made risk_analysis_parallel = ((data_analyst, refl, refl, refl), tt)
  dependencies-Made validation_parallel = ((plan_generator, refl, refl, refl), tt)
  dependencies-Made conversation_assistant = tt
  dependencies-Made knowledge_retriever = tt
  dependencies-Made execution_monitor = tt
  dependencies-Made end = tt

  missing-Made : (fs : List Field) (f : Field) → All Made fs → first_missing fs ≡ some f → Made f
  unfolding first_missing Made
  missing-Made [] f made h = cc
  missing-Made (g ∷ gs) f (made, more) h = elim (Bool-cases (state g)) [
    | inl there ↦ missing-Made gs f more (rw there at h)
    | inr gone ↦ subst Made (cc (rw gone at h)) made
  ]

  after-missing :
      (a : Agent) (fallback : Option Agent) (o : Option Field) (f : Field) (b : Agent)
      → after_dependencies a fallback o ≡ (b, some (missing f))
      → (o ≡ some f) × (b ≡ or_agent (producer_map f) (or_agent fallback end))
  unfolding after_dependencies
  after-missing a fallback none f b h = elim (Bool-cases (is_complete (completion_field a))) [
    | inl done ↦ cc (rw done at h)
    | inr not_done ↦ cc (rw not_done at h)
  ]
  after-missing a fallback (some g) f b h = (cc h, ground (arith, h))

  -- An agent that is held back for a missing field is replaced by the agent that produces this
  -- field, whatever the fallback.
  pub enforce_dependencies-Replaces :
      (a : Agent) (fallback : Option Agent) (f : Field) (b : Agent)
      → enforce_dependencies a fallback ≡ (b, some (missing f))
      → Replaces f b
  unfolding enforce_dependencies or_agent Made
  enforce_dependencies-Replaces a fallback f b h = elim (Bool-cases (exempt a)) [
    | inl free ↦ cc (rw free at h)
    | inr bound ↦ elim (Bool-cases (state data_summary)) [
      | inr no_data ↦ cc (rw (bound, no_data) at h)
      | inl has_data ↦
          let (lacks, is_b) =
            after-missing a fallback (first_missing (agent_dependencies a)) f b
              (rw (bound, has_data) at h) in
          let (p, produced, makes, guarded) =
            missing-Made (agent_dependencies a) f (dependencies-Made a) lacks in
          let same : b ≡ p = is_b ∙ rw produced refl in
          record {
            lacks = missing-lacks (agent_dependencies a) f lacks;
            makes = rw same makes;
            exempt_not = rw same guarded;
          }
    ]
  ]
