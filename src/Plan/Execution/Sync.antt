-- ===== src/Plan/Execution/Sync.antt =====
-- The plan's status follows its actions' statuses.
use water_info.Base.{
  String, ◌≡◌, refl, true, false, some, List, [], ◌∷◌, ◌==◌, any, all, All, string_eq, arith, inl,
  inr, Bool-cases,
}
use water_info.Plan.Tables.{PlanStatus, executing, completed, failed}
use water_info.Plan.Execution.{status_from_actions, is_open}

-- A status that the endpoint accepts.
pub data ActionStatus : String → Type 0 where
  is_pending : ActionStatus "pending"
  is_in_progress : ActionStatus "in_progress"
  is_completed : ActionStatus "completed"
  is_failed : ActionStatus "failed"

-- What the statuses of a plan's actions ask for, independently of the order of the tests: all are
-- completed; or none is open and one has failed; or one is open.
pub data Asks : List String → PlanStatus → Type 0 where
  asks_completed :
      (s : String) (ss : List String)
      → all (λ t. t == "completed") (s ∷ ss) ≡ true
      → Asks (s ∷ ss) completed
  asks_failed :
      (ss : List String)
      → any (λ t. t == "failed") ss ≡ true
      → any is_open ss ≡ false
      → Asks ss failed
  asks_executing : (ss : List String) → any is_open ss ≡ true → Asks ss executing

settled :
    (ss : List String)
    → All ActionStatus ss
    → any (λ t. t == "failed") ss ≡ false
    → any is_open ss ≡ false
    → all (λ t. t == "completed") ss ≡ true
unfolding any all
settled [] _ f o = refl
settled (s ∷ ss) (is_pending, rest) f o = cc
settled (s ∷ ss) (is_in_progress, rest) f o = cc
settled (s ∷ ss) (is_completed, rest) f o = settled ss rest f o
settled (s ∷ ss) (is_failed, rest) f o = cc

-- A plan with actions, all of them in the four statuses, is always given a status, and it is the
-- one that the statuses ask for.
pub status_from_actions-Asks :
    (s : String) (ss : List String)
    → All ActionStatus (s ∷ ss)
    → (status : PlanStatus) × (status_from_actions (s ∷ ss) ≡ some status) × Asks (s ∷ ss) status
unfolding status_from_actions
status_from_actions-Asks s ss valid = elim (Bool-cases (all (λ t. t == "completed") (s ∷ ss))) [
  | inl done ↦ (completed, rw done refl, asks_completed s ss done)
  | inr not_done ↦ elim (Bool-cases (any is_open (s ∷ ss))) [
    | inl waiting ↦ (executing, ground (arith, not_done, waiting), asks_executing (s ∷ ss) waiting)
    | inr closed ↦ elim (Bool-cases (any (λ t. t == "failed") (s ∷ ss))) [
      | inl bad ↦ (failed, rw (not_done, bad, closed) refl, asks_failed (s ∷ ss) bad closed)
      | inr good ↦ cc (settled (s ∷ ss) valid good closed, not_done)
    ]
  ]
]
