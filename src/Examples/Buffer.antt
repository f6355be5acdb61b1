-- ===== src/Examples/Buffer.antt =====
-- The approval of a plan with buffered changes.
use mathlib.Core.List.Perm
use water_info.Base.{ℕ, String, pos, ◌≡◌, refl, none, [], ◌∷◌, string_eq}
use water_info.Base.Result.{ok}
use water_info.Examples.Data.{runtime, reviewer, draft_db}
use water_info.Examples.Review.{answer}
use water_info.Plan.Review.{approve_plan, paths_fit}
use water_info.Plan.Review.Buffer.{Transferred, approve_plan-Transferred}
use water_info.Plan.Snapshot.{add}
use water_info.Plan.Tables.{Db, AuditDraft, varchar}
use water_info.Plan.Tx.{◌>>=◌}

abbrev buffered_change : ℕ → String → AuditDraft
buffered_change time path = record {
  plan_id = "P1";
  buffered_at = time;
  reviewer = reviewer;
  change = record {
    field_path = path;
    change_type = add;
    old_value = none;
    new_value = none;
    old_index = none;
    new_index = none;
  };
}

-- The later change stands first.
abbrev buffered_db : Db
buffered_db = record draft_db {
  audit_drafts = buffered_change 4 "summary" ∷ buffered_change 3 "actions" ∷ [];
}

abbrev buffer_approved : Db
unfolding approve_plan
buffer_approved = (approve_plan runtime 6 "P1" (pos 0) "fine" reviewer buffered_db).1

buffer_returns :
    approve_plan runtime 6 "P1" (pos 0) "fine" reviewer buffered_db ≡ (ok answer, buffer_approved)
unfolding approve_plan buffer_approved ◌>>=◌ varchar paths_fit
buffer_returns = refl

approve_plan-Transferred_example : Transferred "P1" buffered_db buffer_approved
approve_plan-Transferred_example =
    approve_plan-Transferred runtime 6 "P1" (pos 0) reviewer "fine" buffered_db answer
      buffer_approved (λ ds. Perm.refl ds) buffer_returns
