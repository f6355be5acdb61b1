-- ===== src/Plan/Patch/Frame/Patches.antt =====
-- A patch changes only the entries of plans: the other two lists, and the whole patch.
use water_info.Base.{ℕ, ℤ, String, Option, none, some, List}
use water_info.Plan.Snapshot.{Runtime, ResourceItem, NotificationItem, PlanSnapshot}
use water_info.Plan.Tx.Preserves.{Preserves, Preserves-pure, Preserves-raise, Preserves-exec}
use water_info.Plan.Tx.{Tx}
use water_info.Plan.Patch.{
  IdArg, ResourceUpsert, NotificationUpsert, Arg, absent, null, given, Summary, text, not_text,
  PlanPatch, Edits, Work,
}
use water_info.Plan.Patch.Resources.{
  known_resource, delete_resource, next_resource_id, insert_resource, update_resource,
  write_resource, upsert_resource, apply_resources_patch,
}
use water_info.Plan.Patch.Notifications.{
  known_notification, delete_notification, next_notification_id, insert_notification,
  update_notification, write_notification, upsert_notification, apply_notifications_patch,
}
use water_info.Plan.Patch.Apply.{patched_summary, when_given, apply_patch}
use water_info.Plan.Patch.Frame.{others, arg_rules, apply_actions_patch-others}

module _ (plan_id : String) (now : ℕ) where
  known_resource-others : (n : ℤ) (k : Option ℕ) → Preserves others (known_resource plan_id now n k)
  unfolding known_resource
  known_resource-others n none = Preserves-raise _
  known_resource-others n (some k) = Preserves-pure k

  delete_resource-others :
      (w : Work ℕ ResourceItem) (x : IdArg) → Preserves others (delete_resource plan_id now w x)
  unfolding delete_resource others
  delete_resource-others w x = search (arg_rules, Preserves-exec, known_resource-others) depth 8

  next_resource_id-others : Preserves others (next_resource_id plan_id now)
  unfolding next_resource_id others
  next_resource_id-others = search (arg_rules, Preserves-exec)

  insert_resource-others :
      (w : Work ℕ ResourceItem) (t n : String) (q : ℤ) (l : Option String)
      → Preserves others (insert_resource plan_id now w t n q l)
  unfolding insert_resource others
  insert_resource-others w t n q l =
      search (arg_rules, Preserves-exec, next_resource_id-others) depth 8

  update_resource-others :
      (w : Work ℕ ResourceItem) (k : ℕ) (t n : String) (q : ℤ) (l : Option String)
      → Preserves others (update_resource plan_id now w k t n q l)
  unfolding update_resource others
  update_resource-others w k t n q l = search (arg_rules, Preserves-exec) depth 8

  write_resource-others :
      (w : Work ℕ ResourceItem) (k : Option ℕ) (t n : String) (q : ℤ) (l : Option String)
      → Preserves others (write_resource plan_id now w k t n q l)
  unfolding write_resource
  write_resource-others w none t n q l = insert_resource-others w t n q l
  write_resource-others w (some k) t n q l = update_resource-others w k t n q l

  upsert_resource-others :
      (w : Work ℕ ResourceItem) (u : ResourceUpsert)
      → Preserves others (upsert_resource plan_id now w u)
  unfolding upsert_resource
  upsert_resource-others w u = search (arg_rules, write_resource-others) depth 8

  pub apply_resources_patch-others :
      (xs : List ResourceItem) (p : Edits IdArg ResourceUpsert)
      → Preserves others (apply_resources_patch plan_id now xs p)
  unfolding apply_resources_patch
  apply_resources_patch-others xs p =
      search (arg_rules, delete_resource-others, upsert_resource-others) depth 7

module _ (plan_id : String) (now : ℕ) where
  known_notification-others :
      (n : ℤ) (k : Option ℕ) → Preserves others (known_notification plan_id now n k)
  unfolding known_notification
  known_notification-others n none = Preserves-raise _
  known_notification-others n (some k) = Preserves-pure k

  delete_notification-others :
      (w : Work ℕ NotificationItem) (x : IdArg)
      → Preserves others (delete_notification plan_id now w x)
  unfolding delete_notification others
  delete_notification-others w x =
      search (arg_rules, Preserves-exec, known_notification-others) depth 8

  next_notification_id-others : Preserves others (next_notification_id plan_id now)
  unfolding next_notification_id others
  next_notification_id-others = search (arg_rules, Preserves-exec)

  insert_notification-others :
      (w : Work ℕ NotificationItem) (c t : String) (m s : Option String)
      → Preserves others (insert_notification plan_id now w c t m s)
  unfolding insert_notification others
  insert_notification-others w c t m s =
      search (arg_rules, Preserves-exec, next_notification_id-others) depth 8

  update_notification-others :
      (w : Work ℕ NotificationItem) (k : ℕ) (c t : String) (m s : Option String)
      → Preserves others (update_notification plan_id now w k c t m s)
  unfolding update_notification others
  update_notification-others w k c t m s = search (arg_rules, Preserves-exec) depth 8

  write_notification-others :
      (w : Work ℕ NotificationItem) (k : Option ℕ) (c t : String) (m s : Option String)
      → Preserves others (write_notification plan_id now w k c t m s)
  unfolding write_notification
  write_notification-others w none c t m s = insert_notification-others w c t m s
  write_notification-others w (some k) c t m s = update_notification-others w k c t m s

  upsert_notification-others :
      (w : Work ℕ NotificationItem) (u : NotificationUpsert)
      → Preserves others (upsert_notification plan_id now w u)
  unfolding upsert_notification
  upsert_notification-others w u = search (arg_rules, write_notification-others) depth 8

  pub apply_notifications_patch-others :
      (xs : List NotificationItem) (p : Edits IdArg NotificationUpsert)
      → Preserves others (apply_notifications_patch plan_id now xs p)
  unfolding apply_notifications_patch
  apply_notifications_patch-others xs p =
      search (arg_rules, delete_notification-others, upsert_notification-others) depth 7

patched_summary-others : (old : String) (s : Arg Summary) → Preserves others (patched_summary old s)
unfolding patched_summary
patched_summary-others old absent = Preserves-pure old
patched_summary-others old null = Preserves-pure old
patched_summary-others old (given not_text) = Preserves-raise _
patched_summary-others old (given (text s)) = search arg_rules

when_given-others :
    {E S : Type 0} (edits : Option E) (s : S) (body : S → E → Tx S)
    → ((e : E) → Preserves others (body s e))
    → Preserves others (when_given edits s body)
unfolding when_given
when_given-others none s body h = Preserves-pure s
when_given-others (some e) s body h = h e

-- A patch leaves the plans, the audit tables and their sequence as they were.
pub apply_patch-others :
    (rt : Runtime) (plan_id : String) (now : ℕ) (old : PlanSnapshot) (patch : PlanPatch)
    → Preserves others (apply_patch rt plan_id now old patch)
unfolding apply_patch
apply_patch-others rt plan_id now old patch =
    search
      (
        arg_rules, patched_summary-others, when_given-others, apply_actions_patch-others,
        apply_resources_patch-others, apply_notifications_patch-others,
      )
      depth 8
