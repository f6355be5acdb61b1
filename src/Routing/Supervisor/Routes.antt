-- ===== src/Routing/Supervisor/Routes.antt =====
-- agents/supervisor.py: what the returns of `supervisor_node` have in common, before
-- `_with_structured_routing`.
use mathlib.Core.Path.{subst}
use mathlib.Core.Option.{some-injective}
use water_info.Base.{
  ◌≡◌, refl, ◌+◌, ◌<◌, Bool, true, false, not, ◌&&◌, all, Option, none, some, List, [], ◌∷◌,
  if◌then◌else◌, Bool-cases, Option-cases, inl, inr, ◌==◌, string_eq,
}
use water_info.Platform.Skills.{SkillDefinition, evaluate_quality_gates}
use water_info.Routing.Agents.{Agent, knowledge_retriever, end}
use water_info.Routing.Rag.{preempts, preempts-Budget}
use water_info.Routing.Safety.{Settings, is_set}
use water_info.Routing.State.{to, RagTarget, Approval, quality_gate_failure, State, Update}
use water_info.Routing.Supervisor.{
  Runtime, Inferred, Choice, plain_update, full_update, rag_update, skill_finished, skill_next,
  skill_update, skill_route, preempted, preempts_next, agent_of, with_skill, with_model,
  without_model, finished, routed, decide, first_not_completed, or_sequence, head_or_end,
}

-- What all branches of the supervisor have in common.
pub record IsRoute (settings : Settings) (rt : Runtime) (s : State) (u : Update) : Type 0 where
  pub iteration : u.iteration ≡ s.iteration + 1
  pub sends : (a : Agent) × (u.next_agent ≡ to a)
  pub confirmed : is_set u.human_confirmation_required ≡ true → u.next_agent ≡ to end
  pub retrieval :
      (t : RagTarget)
      → u.rag_target ≡ some t
      → s.rag_call_count < settings.rag_max_calls_per_session

module _ (settings : Settings) (rt : Runtime) (s : State) where
  plain-IsRoute : (a : Agent) → IsRoute settings rt s (plain_update (s.iteration + 1) a)
  unfolding plain_update is_set
  plain-IsRoute a = record {
    iteration = refl;
    sends = (a, refl);
    confirmed = λ h. cc;
    retrieval = λ t h. cc;
  }

  full-IsRoute :
      (a : Agent) (i : Inferred)
      → IsRoute settings rt s (full_update settings rt (s.iteration + 1) a i)
  unfolding full_update plain_update is_set
  full-IsRoute a i = record {
    iteration = refl;
    sends = (a, refl);
    confirmed = λ h. cc;
    retrieval = λ t h. cc;
  }

  preempted-IsRoute :
      (a : Agent) (i : Inferred) (u : Update)
      → IsRoute settings rt s u
      → IsRoute settings rt s
          (preempted settings rt (preempts_next settings rt s a) (s.iteration + 1) i u)
  unfolding preempted rag_update plain_update is_set preempts_next
  preempted-IsRoute a i u r = elim (Option-cases (preempts settings rt.strip rt.query_hash s a)) [
    | inl never ↦ rw never r
    | inr (t, first) ↦
        let budget = preempts-Budget settings rt.strip rt.query_hash s a t first in
        rw first (record {
          iteration = refl;
          sends = (knowledge_retriever, refl);
          confirmed = λ h. cc;
          retrieval = λ t' h. budget.0;
        })
  ]

  -- The next agent of an update without a confirmation may be anything.
  next-IsRoute :
      (u : Update) (a : Agent)
      → is_set u.human_confirmation_required ≡ false
      → IsRoute settings rt s u
      → IsRoute settings rt s (record u { next_agent = to a })
  next-IsRoute u a free r = record {
    iteration = r.iteration;
    sends = (a, refl);
    confirmed = λ h. cc (h, free);
    retrieval = r.retrieval;
  }

  if-IsRoute :
      (b : Bool) {u v : Update}
      → IsRoute settings rt s u
      → IsRoute settings rt s v
      → IsRoute settings rt s (if b then u else v)
  if-IsRoute true r q = r
  if-IsRoute false r q = q

  escalated-IsRoute :
      (u : Update) (asked : List Approval)
      → IsRoute settings rt s u
      → IsRoute settings rt s (record u {
        next_agent = to end;
        human_confirmation_required = some true;
        pending_approvals = some asked;
      })
  escalated-IsRoute u asked r = record {
    iteration = r.iteration;
    sends = (end, refl);
    confirmed = λ h. refl;
    retrieval = r.retrieval;
  }

  skill_finished-IsRoute :
      (skill : SkillDefinition) (sequence : List Agent) (u : Update)
      → is_set u.human_confirmation_required ≡ false
      → IsRoute settings rt s u
      → IsRoute settings rt s (skill_finished settings rt s skill sequence u)
  unfolding skill_finished
  skill_finished-IsRoute skill sequence u free r =
      let retried = next-IsRoute u (head_or_end sequence) free r in
      let done = next-IsRoute u end free r in
      let results = evaluate_quality_gates rt.float_of skill s.values in
      let escalated = escalated-IsRoute u (quality_gate_failure skill.id results ∷ []) r in
      let failed = not (all (λ g. g.1) results) in
      if-IsRoute (failed && skill.fallback_strategy == "retry") retried
        (if-IsRoute (failed && skill.fallback_strategy == "escalate_to_human") escalated done)

  skill_next-IsRoute :
      (skill : SkillDefinition) (sequence : List Agent) (next : Option Agent) (u : Update)
      → is_set u.human_confirmation_required ≡ false
      → IsRoute settings rt s u
      → IsRoute settings rt s (skill_next settings rt s skill sequence next u)
  unfolding skill_next
  skill_next-IsRoute skill sequence (some a) u free r = next-IsRoute u a free r
  skill_next-IsRoute skill sequence none u free r = skill_finished-IsRoute skill sequence u free r

  skill_update-IsRoute :
      (u : Update) (o : Option SkillDefinition) (v : Update)
      → is_set u.human_confirmation_required ≡ false
      → IsRoute settings rt s u
      → skill_update settings rt s u o ≡ some v
      → IsRoute settings rt s v
  unfolding skill_update
  skill_update-IsRoute u none v free r h = cc
  skill_update-IsRoute u (some skill) v free r h =
      let sequence = or_sequence s.skill_agent_sequence skill.agent_sequence in
      let keeps : IsRoute settings rt s (record u { skill_agent_sequence = some sequence }) =
        record {
          iteration = r.iteration;
          sends = r.sends;
          confirmed = r.confirmed;
          retrieval = r.retrieval;
        } in
      subst (λ w. IsRoute settings rt s w) (some-injective _ _ h)
        (skill_next-IsRoute skill sequence (first_not_completed s.present sequence)
          (record u { skill_agent_sequence = some sequence }) free keeps)

  with_skill-IsRoute :
      (i : Inferred) (u : Update)
      → IsRoute settings rt s u
      → IsRoute settings rt s (with_skill settings rt s i u)
  unfolding with_skill
  with_skill-IsRoute i u r =
      let v = preempted-IsRoute (agent_of settings rt u.next_agent) i u r in
      record {
        iteration = v.iteration;
        sends = v.sends;
        confirmed = v.confirmed;
        retrieval = v.retrieval;
      }

  with_model-IsRoute :
      (i : Inferred) (c : Choice) → IsRoute settings rt s (with_model settings rt s i c)
  unfolding with_model
  with_model-IsRoute i c =
      let j = record i { intent = c.intent; focus_station = c.focus_station } in
      let v = preempted-IsRoute c.next_agent j _ (full-IsRoute c.next_agent j) in
      record {
        iteration = v.iteration;
        sends = v.sends;
        confirmed = v.confirmed;
        retrieval = v.retrieval;
      }

  routed-IsRoute :
      (i : Inferred) (deterministic : Option Agent) (o : Option Update)
      → ((v : Update) → o ≡ some v → IsRoute settings rt s v)
      → IsRoute settings rt s (routed settings rt s i deterministic o)
  unfolding routed finished without_model
  routed-IsRoute i deterministic (some u) r = with_skill-IsRoute i u (r u refl)
  routed-IsRoute i deterministic none r =
      search (if-IsRoute, full-IsRoute, preempted-IsRoute, with_model-IsRoute)

  skill_route-IsRoute :
      (i : Inferred) (v : Update) → skill_route settings rt s i ≡ some v → IsRoute settings rt s v
  unfolding skill_route full_update plain_update is_set
  skill_route-IsRoute i v h = elim (Bool-cases settings.skill_registry_enabled) [
    | inr off ↦ cc (rw off at h)
    | inl on ↦
        skill_update-IsRoute (full_update settings rt (s.iteration + 1) end i) _ v refl
          (full-IsRoute end i) (rw on at h)
  ]

  pub decide-IsRoute : IsRoute settings rt s (decide settings rt s)
  unfolding decide finished
  decide-IsRoute =
      search (if-IsRoute, plain-IsRoute, full-IsRoute, routed-IsRoute, skill_route-IsRoute) depth 9
