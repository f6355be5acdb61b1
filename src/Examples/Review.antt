-- ===== src/Examples/Review.antt =====
-- Edits and approvals of a concrete plan.
use water_info.Base.{String, List, pos, ◌≡◌, refl, ◌↔◌, true, some, [], ◌∷◌, string_eq}
use water_info.Base.Result.{ok}
use water_info.Plan.Tables.{draft, approved, Db, Sequences, varchar}
use water_info.Plan.Diff.{diff_list_section, diff_plan, action_section}
use water_info.Plan.Diff.Reference.{section_changes, diff_list_section-eq-section_changes}
use water_info.Plan.Diff.Complete.{IsKeyed, diff_plan-eq-nil}
use water_info.Plan.Tx.{◌>>=◌, validation_failed, version_conflict}
use water_info.Plan.Tx.Inversion.{Returns}
use water_info.Plan.Tx.Preserves.{Preserves}
use water_info.Plan.Snapshot.{ActionItem}
use water_info.Plan.Patch.{PlanPatch, Edits, ActionUpsert, absent, given, int, action_table}
use water_info.Plan.Patch.Actions.{apply_actions_patch}
use water_info.Plan.Patch.Tracks.{SameEdits, apply_actions_patch-SameEdits}
use water_info.Plan.Tables.Views.{view}
use water_info.Plan.Patch.Apply.{apply_patch}
use water_info.Plan.Patch.Frame.{others}
use water_info.Plan.Patch.Frame.Patches.{apply_patch-others}
use water_info.Plan.Review.{
  edit_draft, approve_plan, ApproveResponse, find_plan, PlanResponse, build_plan_response, buffered,
  buffered_rows, reviewer_fits, paths_fit,
}
use water_info.Plan.Review.Steps.{Locked}
use water_info.Plan.Review.Operation.{
  editing_draft, approving, Step, edits_draft, approves, Moves, Step-Moves,
}
use water_info.Plan.Review.Trail.{records_of, Audited, start, next, History-Audited}
use water_info.Plan.Review.Refusal.{
  Raised, draft_raised, refusal, opinion_fits, review-refused, Raised-atomic, Step-lost_update,
}
use water_info.Plan.Review.Buffer.{approve_plan-Returns}
use water_info.Examples.Data.{
  runtime, reviewer, row, draft_db, patch, old_snapshot, new_snapshot, action_item_one,
}

abbrev edited : Db
unfolding edit_draft
edited = (edit_draft runtime 5 "P1" (pos 0) patch reviewer draft_db).1

abbrev pub answer : ApproveResponse
answer = record { plan_id = "P1"; status = approved; version = 1; audit_record_id = 1 }

abbrev after_approval : Db
unfolding approve_plan
after_approval = (approve_plan runtime 6 "P1" (pos 0) "fine" reviewer draft_db).1

approval_returns :
    approve_plan runtime 6 "P1" (pos 0) "fine" reviewer draft_db ≡ (ok answer, after_approval)
unfolding approve_plan after_approval ◌>>=◌ varchar paths_fit
approval_returns = refl

approval-Step : Step runtime 6 "P1" (pos 0) reviewer (approving "fine") draft_db after_approval
approval-Step = approves "fine" draft_db answer after_approval approval_returns

abbrev edit_answer : PlanResponse
unfolding build_plan_response
edit_answer = build_plan_response "P1" edited

edit_returns : edit_draft runtime 5 "P1" (pos 0) patch reviewer draft_db ≡ (ok edit_answer, edited)
unfolding edit_draft edited edit_answer ◌>>=◌ varchar paths_fit diff_plan
edit_returns = refl

edit-Step : Step runtime 5 "P1" (pos 0) reviewer (editing_draft patch) draft_db edited
edit-Step = edits_draft patch draft_db edit_answer edited edit_returns

Step-Moves_example : Moves "P1" (pos 0) draft approved draft_db after_approval
Step-Moves_example =
    Step-Moves runtime 6 "P1" (pos 0) reviewer (approving "fine") draft_db after_approval
      approval-Step

draft_db-Audited : Audited "P1" draft_db
unfolding find_plan records_of
draft_db-Audited = record {
  of_draft = λ r there is_draft. refl;
  of_approved = λ r there is_approved. cc;
}

History-Audited_example : Audited "P1" edited
History-Audited_example =
    History-Audited "P1" draft_db edited
      (next runtime 5 "P1" (pos 0) reviewer (editing_draft patch) draft_db draft_db edited
        (start draft_db) edit-Step)
      draft_db-Audited

Step-lost_update_example : ¬ Step runtime 7 "P1" (pos 0) reviewer (approving "late") edited edited
Step-lost_update_example =
    Step-lost_update runtime 5 "P1" (pos 0) reviewer runtime 7 reviewer (editing_draft patch)
      (approving "late") draft_db edited edited edit-Step

late_refusal : refusal draft (pos 3) (find_plan "P1" draft_db) ≡ some (version_conflict 0 (pos 3))
unfolding refusal find_plan
late_refusal = refl

late_opinion : opinion_fits runtime (approving "fine") ≡ true
unfolding opinion_fits
late_opinion = refl

review-refused_example :
    Raised runtime 6 "P1"
      (pos 3)
      reviewer
      (version_conflict 0 (pos 3))
      (approving "fine")
      draft_db
      draft_db
review-refused_example =
    review-refused runtime 6 "P1" (pos 3) reviewer (approving "fine") draft_db
      (version_conflict 0 (pos 3)) late_opinion late_refusal

-- A patch whose second item has no description: the deletion before it is undone.
abbrev bad_patch : PlanPatch
bad_patch = record patch {
  actions = some (record {
    delete = "a1" ∷ [];
    upsert =
        record {
          camel_action_id = absent;
          action_id = absent;
          description = absent;
          priority = absent;
          assignee = absent;
          status = absent;
        }
        ∷ [];
  });
}

abbrev after_bad : Db
unfolding edit_draft
after_bad = (edit_draft runtime 5 "P1" (pos 0) bad_patch reviewer draft_db).1

bad-Raised :
    Raised runtime 5 "P1"
      (pos 0)
      reviewer
      (validation_failed ("actions.description" ∷ []))
      (editing_draft bad_patch)
      draft_db
      after_bad
unfolding edit_draft after_bad ◌>>=◌ varchar paths_fit
bad-Raised = draft_raised bad_patch draft_db after_bad refl

Raised-atomic_example : (s : Sequences) × (after_bad ≡ record draft_db { seq = s })
Raised-atomic_example =
    Raised-atomic runtime 5 "P1" (pos 0) reviewer (editing_draft bad_patch) draft_db after_bad
      (validation_failed ("actions.description" ∷ [])) bad-Raised

draft_db-Locked : Locked "P1" draft (pos 0) draft_db (row draft 0)
unfolding find_plan
draft_db-Locked = record { is_there = refl; allows = refl; is_current = refl }

reviewer_fits_columns : reviewer_fits reviewer ≡ true
unfolding varchar
reviewer_fits_columns = refl

no_paths : paths_fit (buffered "P1" draft_db) ≡ true
unfolding paths_fit buffered buffered_rows
no_paths = refl

approve_plan-Returns_example :
    (after : Db) × Returns
      (approve_plan runtime 6 "P1" (pos 0) "fine" reviewer)
      draft_db
      answer
      after
approve_plan-Returns_example =
    approve_plan-Returns runtime 6 "P1" (pos 0) reviewer "fine" draft_db (row draft 0)
      draft_db-Locked late_opinion reviewer_fits_columns no_paths refl

apply_patch-others_example : Preserves others (apply_patch runtime "P1" 5 old_snapshot patch)
apply_patch-others_example = apply_patch-others runtime "P1" 5 old_snapshot patch

diff_list_section-eq-section_changes_example :
    diff_list_section runtime action_section [] (action_item_one ∷ [])
    ≡ section_changes runtime action_section [] (action_item_one ∷ [])
diff_list_section-eq-section_changes_example =
    diff_list_section-eq-section_changes runtime action_section [] (action_item_one ∷ []) tt
      (refl, tt)

old_snapshot-IsKeyed : IsKeyed runtime old_snapshot
old_snapshot-IsKeyed = record { actions = tt; resources = tt; notifications = tt }

new_snapshot-IsKeyed : IsKeyed runtime new_snapshot
new_snapshot-IsKeyed = record { actions = (refl, tt); resources = tt; notifications = tt }

diff_plan-eq-nil_example :
    (diff_plan runtime old_snapshot new_snapshot ≡ []) ↔ (old_snapshot ≡ new_snapshot)
diff_plan-eq-nil_example =
    diff_plan-eq-nil runtime old_snapshot new_snapshot old_snapshot-IsKeyed new_snapshot-IsKeyed

abbrev edits : Edits String ActionUpsert
edits = record {
  delete = "a1" ∷ [];
  upsert =
      record {
        camel_action_id = absent;
        action_id = absent;
        description = given "open the weir";
        priority = given (int (pos 2));
        assignee = absent;
        status = absent;
      }
      ∷ [];
}

abbrev new_items : List ActionItem
new_items =
    record {
      action_id = "0a1b2c3d";
      description = "open the weir";
      priority = pos 2;
      assignee = "";
      status = "pending";
    }
    ∷ []

abbrev patched_db : Db
unfolding apply_actions_patch
patched_db = (apply_actions_patch runtime "P1" 5 (action_item_one ∷ []) edits draft_db).1

patch-Returns :
    Returns
      (apply_actions_patch runtime "P1" 5 (action_item_one ∷ []) edits)
      draft_db
      new_items
      patched_db
unfolding apply_actions_patch patched_db ◌>>=◌ varchar
patch-Returns = refl

apply_actions_patch-SameEdits_example :
    SameEdits
      (action_item_one ∷ [])
      (view action_table "P1" draft_db.actions)
      new_items
      (view action_table "P1" patched_db.actions)
apply_actions_patch-SameEdits_example =
    apply_actions_patch-SameEdits runtime "P1" 5 (action_item_one ∷ []) edits draft_db new_items
      patched_db patch-Returns
