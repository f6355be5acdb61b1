-- ===== src/Plan/Review/Rows.antt =====
-- The row of a plan under `UPDATE emergency_plan ... WHERE plan_id = $1`.
use mathlib.Core.Option
use water_info.Base.{
  String, ◌≡◌, refl, inl, inr, false, Option, some, List, [], ◌∷◌, arith, ◌==◌, string_eq, eq_of_==,
  ==_of_eq, Bool-cases, find,
}
use water_info.Plan.Tables.{PlanRow, update_where}

abbrev pub row_of : String → List PlanRow → Option PlanRow
unfolding find
row_of p rows = find (λ r. r.plan_id == p) rows

pub row_of-plan_id :
    (p : String) (rows : List PlanRow) (row : PlanRow) → row_of p rows ≡ some row → row.plan_id ≡ p
unfolding find
row_of-plan_id p [] row h = cc
row_of-plan_id p (r ∷ rows) row h = ground (arith, eq_of_== r.plan_id p, row_of-plan_id p rows row)

module _ (p : String) (f : PlanRow → PlanRow)
    (keeps : (r : PlanRow) → (f r).plan_id ≡ r.plan_id) where
  abbrev updated : List PlanRow → List PlanRow
  updated rows = update_where (λ r. r.plan_id == p) f rows

  pub row_of-updated :
      (rows : List PlanRow) → row_of p (updated rows) ≡ Option.map f (row_of p rows)
  unfolding find update_where
  row_of-updated [] = refl
  row_of-updated (r ∷ rows) = ground (arith, keeps r, row_of-updated rows)

  pub row_of-updated_other :
      (q : String) (rows : List PlanRow)
      → (q == p) ≡ false
      → row_of q (updated rows) ≡ row_of q rows
  unfolding find update_where
  row_of-updated_other q [] h = refl
  row_of-updated_other q (r ∷ rows) h = elim (Bool-cases (r.plan_id == p)) [
    | inr other ↦ ground (arith, row_of-updated_other q rows h)
    | inl mine ↦ ground (
      arith,
      keeps r,
      row_of-updated_other q rows h,
      eq_of_== r.plan_id p mine,
      eq_of_== r.plan_id q,
      ==_of_eq q p,
    )
  ]
