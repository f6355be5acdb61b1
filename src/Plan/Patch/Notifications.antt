-- ===== src/Plan/Patch/Notifications.antt =====
-- services/plan_review.py: `_apply_notifications_patch`.
use water_info.Base.{
  ℕ, ◌+◌, ℤ, String, Bool, not, ◌&&◌, Option, none, some, List, [], ◌∷◌, ◌++◌, map, ◌==◌, keep,
  string_eq, nat_eq,
}
use water_info.Plan.Snapshot.{NotificationItem}
use water_info.Plan.Tables.{NotificationRow, delete_where, update_where, varchar}
use water_info.Plan.Tables.Views.{at_key, without, replace}
use water_info.Plan.Tx.{
  notification_not_found, server_error, Tx, pure, raise, gets, exec, require, ◌>>=◌, ◌>>◌,
}
use water_info.Plan.Patch.{
  get_or, IdArg, NotificationUpsert, Edits, Work, notification_item, notification_table, for_each,
}
use water_info.Plan.Patch.Args.{
  not_null, is_blank, or_empty, error_if, raise_all, first_id, find_id, int_of, known_id,
}

module _ (plan_id : String) (now : ℕ) where
  -- `if nid not in notifications_by_id: raise ...`
  unfoldable pub known_notification : ℤ → Option ℕ → Tx ℕ
  known_notification n none = raise (notification_not_found n)
  known_notification n (some k) = pure k

  -- the loop body over `notifications_patch["delete"]`
  unfoldable pub delete_notification :
      Work ℕ NotificationItem → IdArg → Tx (Work ℕ NotificationItem)
  unfolding delete_where without keep int_of known_id known_notification
  delete_notification w notif_id = do
    nid ← int_of notif_id
    k ← known_notification nid (known_id w.ids nid)
    exec λ db. record db {
      notifications = delete_where (at_key notification_table plan_id k) db.notifications;
    }
    pure (record {
      ids = keep (λ j. not (j == k)) w.ids;
      items = without notification_table k w.items;
    })

  abbrev notification_columns : String → String → String → Bool
  notification_columns channel target status =
      varchar 32 channel && varchar 255 target && varchar 32 status

  unfoldable pub update_notification :
      Work ℕ NotificationItem
      → ℕ
      → String
      → String
      → Option String
      → Option String
      → Tx (Work ℕ NotificationItem)
  unfolding not_null update_where replace
  update_notification w nid channel target message status = do
    content ← not_null message
    state ← not_null status
    require (notification_columns channel target state) server_error
    exec λ db. record db {
      notifications =
          update_where (at_key notification_table plan_id nid)
            (λ r. record r {
              channel = channel;
              target = target;
              content = content;
              status = state;
            })
            db.notifications;
    }
    pure (record w {
      items =
          replace notification_table nid
            (record {
              notification_id = nid;
              channel = channel;
              target = target;
              message = content;
              status = state;
            })
            w.items;
    })

  -- `RETURNING id`: the next value of the sequence, drawn also where the statement then fails.
  unfoldable pub next_notification_id : Tx ℕ
  next_notification_id = do
    n ← gets λ db. db.seq.notification_id
    exec λ db. record db { seq = record db.seq { notification_id = n + 1 } }
    pure n

  unfoldable pub insert_notification :
      Work ℕ NotificationItem
      → String
      → String
      → Option String
      → Option String
      → Tx (Work ℕ NotificationItem)
  unfolding not_null next_notification_id notification_item
  insert_notification w channel target message status = do
    new_id ← next_notification_id
    content ← not_null message
    state ← not_null status
    require (notification_columns channel target state) server_error
    let row : NotificationRow = record {
      id = new_id;
      plan_id = plan_id;
      target = target;
      channel = channel;
      content = content;
      status = state;
      sent_at = none;
      created_at = now;
    }
    exec λ db. record db { notifications = db.notifications ++ row ∷ [] }
    pure (record { ids = w.ids ++ new_id ∷ []; items = w.items ++ notification_item row ∷ [] })

  unfoldable pub write_notification :
      Work ℕ NotificationItem
      → Option ℕ
      → String
      → String
      → Option String
      → Option String
      → Tx (Work ℕ NotificationItem)
  unfolding update_notification insert_notification
  write_notification w (some nid) channel target message status =
      update_notification w nid channel target message status
  write_notification w none channel target message status =
      insert_notification w channel target message status

  -- the loop body over `notifications_patch["upsert"]`
  unfoldable pub upsert_notification :
      Work ℕ NotificationItem → NotificationUpsert → Tx (Work ℕ NotificationItem)
  unfolding write_notification raise_all is_blank error_if get_or first_id or_empty find_id
  upsert_notification w u = do
    let channel = get_or u.channel ""
    let target = get_or u.target ""
    raise_all (
        error_if (is_blank channel) "notifications.channel"
        ++ error_if (is_blank target) "notifications.target")
    nid ← find_id w.ids (first_id u.camel_notification_id u.notification_id)
    write_notification w nid (or_empty channel) (or_empty target) (get_or u.message "")
        (get_or u.status "pending")

  unfoldable pub apply_notifications_patch :
      List NotificationItem → Edits IdArg NotificationUpsert → Tx (List NotificationItem)
  unfolding delete_notification upsert_notification for_each
  apply_notifications_patch current patch = do
    deleted ←
        for_each delete_notification
          (record { ids = map (λ n. n.notification_id) current; items = current }) patch.delete
    written ← for_each upsert_notification deleted patch.upsert
    pure written.items
