-- ===== src/Platform/Dispatch.antt =====
-- platform/dispatch_state_machine.py: the life of a dispatch order.
use water_info.Base.{
  ℕ, suc, ◌+◌, ◌≤◌, String, ◌≡◌, refl, Bool, true, List, [], ◌∷◌, ◌++◌, length, length-append,
  if◌then◌else◌, nat_beq, any, arith, ◌↔◌, ◌⊎◌, inl, inr, Bool-cases,
}
use water_info.Base.Result.{Result, ok, err}

pub data DispatchState : Type 0 where
  ai_draft approved dispatched arrived returned cancelled : DispatchState

abbrev number : DispatchState → ℕ
number ai_draft = 0
number approved = 1
number dispatched = 2
number arrived = 3
number returned = 4
number cancelled = 5

abbrev state_beq : DispatchState → DispatchState → Bool
state_beq s t = nat_beq (number s) (number t)

state_beq_iff : (s t : DispatchState) → (state_beq s t ≡ true) ↔ (s ≡ t)
state_beq_iff s t = ground arith

-- `VALID_TRANSITIONS.get(state, set())`
unfoldable pub valid_transitions : DispatchState → List DispatchState
valid_transitions ai_draft = approved ∷ cancelled ∷ []
valid_transitions approved = dispatched ∷ cancelled ∷ []
valid_transitions dispatched = arrived ∷ cancelled ∷ []
valid_transitions arrived = returned ∷ []
valid_transitions returned = []
valid_transitions cancelled = []

pub record TransitionRecord : Type 0 where
  pub from_state : DispatchState
  pub to_state : DispatchState
  pub timestamp : ℕ
  pub operator_id : String
  pub reason : String

-- `InvalidTransitionError(current, target)`
pub data InvalidTransition : Type 0 where
  invalid : DispatchState → DispatchState → InvalidTransition

pub record Machine : Type 0 where
  pub state : DispatchState
  pub history : List TransitionRecord

unfoldable pub new_machine : DispatchState → Machine
new_machine s = record { state = s; history = [] }

unfoldable pub can_transition : Machine → DispatchState → Bool
unfolding any valid_transitions
can_transition m target = any (λ s. state_beq s target) (valid_transitions m.state)

unfoldable pub transition :
    Machine
    → DispatchState
    → ℕ
    → String
    → String
    → Result InvalidTransition TransitionRecord × Machine
unfolding can_transition
transition m target now operator_id reason =
    let entry : TransitionRecord = record {
      from_state = m.state;
      to_state = target;
      timestamp = now;
      operator_id = operator_id;
      reason = reason;
    } in
    if can_transition m target
    then (ok entry, record { state = target; history = m.history ++ entry ∷ [] })
    else (err (invalid m.state target), m)

-- The transitions that a dispatch order may take.
pub data Next : DispatchState → DispatchState → Type 0 where
  approve : Next ai_draft approved
  drop_draft : Next ai_draft cancelled
  dispatch : Next approved dispatched
  drop_approved : Next approved cancelled
  arrive : Next dispatched arrived
  drop_dispatched : Next dispatched cancelled
  finish : Next arrived returned

can_transition-Next : (m : Machine) (t : DispatchState) → can_transition m t ≡ true → Next m.state t
unfolding can_transition any valid_transitions
can_transition-Next m t h = by_cases m.state t h
  where
    by_cases :
        (s t : DispatchState) → any (λ x. state_beq x t) (valid_transitions s) ≡ true → Next s t
    by_cases ai_draft approved h = approve
    by_cases ai_draft cancelled h = drop_draft
    by_cases approved dispatched h = dispatch
    by_cases approved cancelled h = drop_approved
    by_cases dispatched arrived h = arrive
    by_cases dispatched cancelled h = drop_dispatched
    by_cases arrived returned h = finish
    by_cases ai_draft ai_draft h = cc
    by_cases ai_draft dispatched h = cc
    by_cases ai_draft arrived h = cc
    by_cases ai_draft returned h = cc
    by_cases approved ai_draft h = cc
    by_cases approved approved h = cc
    by_cases approved arrived h = cc
    by_cases approved returned h = cc
    by_cases dispatched ai_draft h = cc
    by_cases dispatched approved h = cc
    by_cases dispatched dispatched h = cc
    by_cases dispatched returned h = cc
    by_cases arrived ai_draft h = cc
    by_cases arrived approved h = cc
    by_cases arrived dispatched h = cc
    by_cases arrived arrived h = cc
    by_cases arrived cancelled h = cc
    by_cases returned t h = cc
    by_cases cancelled t h = cc

-- A history that leads from one state to another.
pub data PathOf : DispatchState → List TransitionRecord → DispatchState → Type 0 where
  here : (s : DispatchState) → PathOf s [] s
  step :
      (s : DispatchState) (rs : List TransitionRecord) (r : TransitionRecord)
      → PathOf s rs r.from_state
      → Next r.from_state r.to_state
      → PathOf s (rs ++ r ∷ []) r.to_state

-- A request to move to a state; a refused one is in the sequence as well.
pub record Request : Type 0 where
  pub target : DispatchState
  pub now : ℕ
  pub operator_id : String
  pub reason : String

unfoldable pub run : Machine → List Request → Machine
unfolding transition
run m [] = m
run m (r ∷ rs) = run (transition m r.target r.now r.operator_id r.reason).1 rs

abbrev moved : Machine → Request → Machine
moved m r = record {
  state = r.target;
  history =
      m.history
      ++ record {
        from_state = m.state;
        to_state = r.target;
        timestamp = r.now;
        operator_id = r.operator_id;
        reason = r.reason;
      }
        ∷ [];
}

unfoldable answered : Machine → Request → Machine
unfolding transition
answered m r = (transition m r.target r.now r.operator_id r.reason).1

answered-cases :
    (m : Machine) (r : Request)
    → (answered m r ≡ m) ⊎ (Next m.state r.target × (answered m r ≡ moved m r))
unfolding transition answered
answered-cases m r = elim (Bool-cases (can_transition m r.target)) [
  | inl may ↦ inr (can_transition-Next m r.target may, rw (answered, may) refl)
  | inr may_not ↦ inl (rw (answered, may_not) refl)
]

answered-Path :
    (s : DispatchState) (m : Machine) (r : Request)
    → PathOf s m.history m.state
    → PathOf s (answered m r).history (answered m r).state
answered-Path s m r p = elim (answered-cases m r) [
  | inl same ↦ rw same p
  | inr (next, e) ↦ rw e (step s m.history _ p next)
]

-- Whatever transitions are asked for, refused ones included, the history of an order leads from its
-- first state to its current one along valid transitions.
pub run-PathOf :
    (s : DispatchState) (rs : List Request)
    → PathOf s (run (new_machine s) rs).history (run (new_machine s) rs).state
unfolding new_machine run answered
run-PathOf s rs = from (new_machine s) rs (here s)
  where
    from :
        (m : Machine) (rs : List Request)
        → PathOf s m.history m.state
        → PathOf s (run m rs).history (run m rs).state
    from m [] p = p
    from m (r ∷ rs) p = from (answered m r) rs (answered-Path s m r p)

-- How far an order has come.
abbrev stage : DispatchState → ℕ
stage ai_draft = 0
stage approved = 1
stage dispatched = 2
stage arrived = 3
stage returned = 4
stage cancelled = 4

Next-stage : (s t : DispatchState) → Next s t → suc (stage s) ≤ stage t
Next-stage s t approve = omega arith
Next-stage s t drop_draft = omega arith
Next-stage s t dispatch = omega arith
Next-stage s t drop_approved = omega arith
Next-stage s t arrive = omega arith
Next-stage s t drop_dispatched = omega arith
Next-stage s t finish = omega arith

PathOf-stage :
    (s t : DispatchState) (rs : List TransitionRecord)
    → PathOf s rs t
    → length rs + stage s ≤ stage t
PathOf-stage s t rs (here x) = omega arith
PathOf-stage s t rs (step x before r p n) = omega (
  arith,
  length-append before (r ∷ []),
  PathOf-stage s r.from_state before p,
  Next-stage r.from_state r.to_state n,
)

stage-le : (t : DispatchState) → stage t ≤ 4
stage-le t = ground arith

-- An order takes at most four transitions, whatever is asked for.
pub length-run-history :
    (s : DispatchState) (rs : List Request) → length (run (new_machine s) rs).history ≤ 4
length-run-history s rs =
    let m = run (new_machine s) rs in
    omega (arith, PathOf-stage s m.state m.history (run-PathOf s rs), stage-le m.state)
