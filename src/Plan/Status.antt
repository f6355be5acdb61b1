-- ===== src/Plan/Status.antt =====
-- The comparison of the values of `emergency_plan.status`.
use water_info.Base.{ℕ, ◌≡◌, ◌↔◌, Bool, true, Eq, nat_beq, arith}
use water_info.Plan.Tables.{PlanStatus, draft, approved, executing, completed, failed, cancelled}

abbrev pub rank : PlanStatus → ℕ
rank draft = 0
rank approved = 1
rank executing = 2
rank completed = 3
rank failed = 4
rank cancelled = 5

abbrev pub status_beq : PlanStatus → PlanStatus → Bool
status_beq s t = nat_beq (rank s) (rank t)

pub status_beq_iff : (s t : PlanStatus) → (status_beq s t ≡ true) ↔ (s ≡ t)
status_beq_iff s t = ground arith

instance abbrev pub status_eq : Eq PlanStatus
status_eq = record { beq = status_beq; beq_iff = status_beq_iff }
