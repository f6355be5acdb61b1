-- ===== src/Plan/Patch/Frame.antt =====
-- A patch changes only the entries of plans.
pub mod Patches
use water_info.Base.{
  ℕ, ℤ, String, ◌≡◌, refl, ap, Bool, true, false, Option, none, some, List, [], ◌∷◌, ◌==◌,
  string_eq, nat_eq, if◌then◌else◌,
}
use water_info.Plan.Snapshot.{Runtime, ActionItem, ResourceItem, NotificationItem, PlanSnapshot}
use water_info.Plan.Tables.{PlanRow, AuditRecord, AuditChange, AuditDraft, Db}
use water_info.Plan.Tx.{Tx, pure, raise}
use water_info.Plan.Tx.Preserves.{
  Preserves, Preserves-pure, Preserves-raise, Preserves-gets, Preserves-require, Preserves-if,
  Preserves-exec, Preserves-bind, Preserves-for_each,
}
use water_info.Plan.Patch.{
  Number, int, not_int, IdArg, number, numeral, empty_text, ActionUpsert, ResourceUpsert,
  NotificationUpsert, Arg, absent, null, given, Summary, text, not_text, PlanPatch, Edits, Work,
}
use water_info.Plan.Patch.Args.{
  not_null, raise_all, valid_priority, valid_quantity, int_of, find_id, known_id,
}
use water_info.Plan.Patch.Actions.{
  delete_action, draw_uuid, new_action_id, insert_action, update_action, write_action,
  upsert_action, apply_actions_patch,
}

-- The tables that a patch leaves alone.
pub record Others : Type 0 where
  pub plans : List PlanRow
  pub audit_records : List AuditRecord
  pub audit_changes : List AuditChange
  pub audit_drafts : List AuditDraft
  pub audit_id : ℕ

unfoldable pub others : Db → Others
others db = record {
  plans = db.plans;
  audit_records = db.audit_records;
  audit_changes = db.audit_changes;
  audit_drafts = db.audit_drafts;
  audit_id = db.seq.audit_id;
}

module _ {O : Type 0} {obs : Db → O} where
  pub not_null-Preserves : (s : Option String) → Preserves obs (not_null s)
  unfolding not_null
  not_null-Preserves none = Preserves-raise _
  not_null-Preserves (some s) = Preserves-pure s

  pub raise_all-Preserves : (es : List String) → Preserves obs (raise_all es)
  unfolding raise_all
  raise_all-Preserves [] = Preserves-pure tt
  raise_all-Preserves (e ∷ es) = Preserves-raise _

  pub valid_priority-Preserves : (n : Option Number) → Preserves obs (valid_priority n)
  unfolding valid_priority
  valid_priority-Preserves none = Preserves-raise _
  valid_priority-Preserves (some not_int) = Preserves-raise _
  valid_priority-Preserves (some (int n)) =
      Preserves-bind _ _ (Preserves-require _ _) (λ u. Preserves-pure n)

  pub valid_quantity-Preserves : (n : Option Number) → Preserves obs (valid_quantity n)
  unfolding valid_quantity
  valid_quantity-Preserves none = Preserves-raise _
  valid_quantity-Preserves (some not_int) = Preserves-raise _
  valid_quantity-Preserves (some (int n)) =
      Preserves-bind _ _ (Preserves-require _ _) (λ u. Preserves-pure n)

  pub int_of-Preserves : (x : IdArg) → Preserves obs (int_of x)
  unfolding int_of
  int_of-Preserves (number n) = Preserves-pure n
  int_of-Preserves (numeral (some n)) = Preserves-pure n
  int_of-Preserves (numeral none) = Preserves-raise _
  int_of-Preserves empty_text = Preserves-raise _

  pub find_id-Preserves : (ids : List ℕ) (x : Option IdArg) → Preserves obs (find_id ids x)
  unfolding find_id
  find_id-Preserves ids none = Preserves-pure none
  find_id-Preserves ids (some x) =
      Preserves-bind _ _ (int_of-Preserves x) (λ n. Preserves-pure (known_id ids n))

pub ruleset arg_rules = (
  Preserves-pure, Preserves-raise, Preserves-gets, Preserves-require, Preserves-if, Preserves-bind,
  Preserves-for_each, not_null-Preserves, raise_all-Preserves, valid_priority-Preserves,
  valid_quantity-Preserves, int_of-Preserves, find_id-Preserves,
)

module _ (rt : Runtime) (plan_id : String) (now : ℕ) where
  delete_action-others :
      (w : Work String ActionItem) (k : String)
      → Preserves others (delete_action rt plan_id now w k)
  unfolding delete_action others
  delete_action-others w k = search (arg_rules, Preserves-exec)

  draw_uuid-others : Preserves others (draw_uuid rt plan_id now)
  unfolding draw_uuid others
  draw_uuid-others = search (arg_rules, Preserves-exec)

  new_action_id-others : (k : Option String) → Preserves others (new_action_id rt plan_id now k)
  unfolding new_action_id
  new_action_id-others none = draw_uuid-others
  new_action_id-others (some s) = search (arg_rules, draw_uuid-others)

  insert_action-others :
      (w : Work String ActionItem) (k : Option String) (d : String) (n : ℤ) (a s : Option String)
      → Preserves others (insert_action rt plan_id now w k d n a s)
  unfolding insert_action others
  insert_action-others w k d n a s =
      search (arg_rules, Preserves-exec, new_action_id-others) depth 8

  update_action-others :
      (w : Work String ActionItem) (k d : String) (n : ℤ) (a s : Option String)
      → Preserves others (update_action rt plan_id now w k d n a s)
  unfolding update_action others
  update_action-others w k d n a s = search (arg_rules, Preserves-exec) depth 8

  write_action-others :
      (w : Work String ActionItem) (k : Option String) (d : String) (n : ℤ) (a s : Option String)
      → Preserves others (write_action rt plan_id now w k d n a s)
  unfolding write_action
  write_action-others w none d n a s = insert_action-others w none d n a s
  write_action-others w (some k) d n a s =
      search (arg_rules, insert_action-others, update_action-others)

  upsert_action-others :
      (w : Work String ActionItem) (u : ActionUpsert)
      → Preserves others (upsert_action rt plan_id now w u)
  unfolding upsert_action
  upsert_action-others w u = search (arg_rules, write_action-others) depth 7

  pub apply_actions_patch-others :
      (xs : List ActionItem) (p : Edits String ActionUpsert)
      → Preserves others (apply_actions_patch rt plan_id now xs p)
  unfolding apply_actions_patch
  apply_actions_patch-others xs p =
      search (arg_rules, delete_action-others, upsert_action-others) depth 7
