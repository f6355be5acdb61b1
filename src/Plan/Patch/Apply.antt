-- ===== src/Plan/Patch/Apply.antt =====
-- services/plan_review.py: `_apply_patch`.
use Prim.Native.String.{count}
use water_info.Base.{ℕ, String, Option, none, some, [], ◌∷◌, leb, string_eq, nat_eq}
use water_info.Plan.Snapshot.{Runtime, PlanSnapshot}
use water_info.Plan.Tx.{validation_failed, Tx, pure, raise, require, ◌>>=◌}
use water_info.Plan.Patch.{Arg, absent, null, given, Summary, text, not_text, PlanPatch}
use water_info.Plan.Patch.Actions.{apply_actions_patch}
use water_info.Plan.Patch.Resources.{apply_resources_patch}
use water_info.Plan.Patch.Notifications.{apply_notifications_patch}

-- `len(summary_val) > 50000` is refused; None leaves the summary as it is.
unfoldable pub patched_summary : String → Arg Summary → Tx String
patched_summary old absent = pure old
patched_summary old null = pure old
patched_summary old (given not_text) = raise (validation_failed ("summary" ∷ []))
patched_summary old (given (text s)) =
    require (leb (count s) 50000) (validation_failed ("summary" ∷ [])) >>= λ _. pure s

-- `if name in patch and patch[name]: ...`
unfoldable pub when_given : {E S : Type 0} → Option E → S → (S → E → Tx S) → Tx S
when_given none s body = pure s
when_given (some edits) s body = body s edits

unfoldable pub apply_patch : Runtime → String → ℕ → PlanSnapshot → PlanPatch → Tx PlanSnapshot
unfolding patched_summary when_given apply_actions_patch apply_resources_patch
    apply_notifications_patch
apply_patch rt plan_id now old patch = do
  new_summary ← patched_summary old.summary patch.summary
  new_actions ← when_given patch.actions old.actions (apply_actions_patch rt plan_id now)
  new_resources ← when_given patch.resources old.resources (apply_resources_patch plan_id now)
  new_notifications ←
      when_given patch.notifications old.notifications (apply_notifications_patch plan_id now)
  pure (record {
    summary = new_summary;
    actions = new_actions;
    resources = new_resources;
    notifications = new_notifications;
  })
