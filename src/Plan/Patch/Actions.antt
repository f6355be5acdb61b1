-- ===== src/Plan/Patch/Actions.antt =====
-- services/plan_review.py: `_apply_actions_patch`.
use water_info.Base.{
  ℕ, ◌+◌, ℤ, pos, String, Bool, not, ◌&&◌, Option, none, some, List, [], ◌∷◌, ◌++◌, map, ◌==◌,
  if◌then◌else◌, keep, string_eq, nat_eq,
}
use water_info.Plan.Snapshot.{Runtime, ActionItem}
use water_info.Plan.Tables.{ActionRow, delete_where, update_where, varchar}
use water_info.Plan.Tables.Views.{at_key, without, replace}
use water_info.Plan.Tx.{action_not_found, server_error, Tx, pure, gets, exec, require, ◌>>=◌, ◌>>◌}
use water_info.Plan.Patch.{
  get_or, int, ActionUpsert, Edits, Work, action_item, action_table, for_each, contains,
}
use water_info.Plan.Patch.Args.{
  not_null, is_blank, is_none, or_empty, error_if, raise_all, first_text, valid_priority,
}

module _ (rt : Runtime) (plan_id : String) (now : ℕ) where
  -- the loop body over `actions_patch["delete"]`
  unfoldable pub delete_action : Work String ActionItem → String → Tx (Work String ActionItem)
  unfolding delete_where without contains keep
  delete_action w action_id = do
    require (contains w.ids action_id) (action_not_found action_id)
    exec λ db. record db {
      actions = delete_where (at_key action_table plan_id action_id) db.actions;
    }
    pure (record {
      ids = keep (λ j. not (j == action_id)) w.ids;
      items = without action_table action_id w.items;
    })

  unfoldable pub draw_uuid : Tx String
  draw_uuid = do
    n ← gets λ db. db.seq.uuids
    exec λ db. record db { seq = record db.seq { uuids = n + 1 } }
    pure (rt.uuid8 n)

  -- `action_id or str(uuid.uuid4())[:8]`
  unfoldable pub new_action_id : Option String → Tx String
  unfolding draw_uuid
  new_action_id none = draw_uuid
  new_action_id (some s) = if s == "" then draw_uuid else pure s

  abbrev action_columns : String → String → String → Bool
  action_columns action_id assignee status =
      varchar 64 action_id && varchar 128 assignee && varchar 32 status

  unfoldable pub insert_action :
      Work String ActionItem
      → Option String
      → String
      → ℤ
      → Option String
      → Option String
      → Tx (Work String ActionItem)
  unfolding new_action_id not_null action_item
  insert_action w action_id description priority assignee status = do
    new_id ← new_action_id action_id
    dept ← not_null assignee
    state ← not_null status
    require (action_columns new_id dept state) server_error
    let row : ActionRow = record {
      plan_id = plan_id;
      action_id = new_id;
      action_type = "";
      description = description;
      priority = priority;
      responsible_dept = dept;
      deadline_minutes = none;
      status = state;
      created_at = now;
    }
    exec λ db. record db { actions = db.actions ++ row ∷ [] }
    pure (record { ids = w.ids ++ new_id ∷ []; items = w.items ++ action_item row ∷ [] })

  unfoldable pub update_action :
      Work String ActionItem
      → String
      → String
      → ℤ
      → Option String
      → Option String
      → Tx (Work String ActionItem)
  unfolding not_null update_where replace
  update_action w action_id description priority assignee status = do
    dept ← not_null assignee
    state ← not_null status
    require (action_columns action_id dept state) server_error
    exec λ db. record db {
      actions =
          update_where (at_key action_table plan_id action_id)
            (λ r. record r {
              description = description;
              priority = priority;
              responsible_dept = dept;
              status = state;
            })
            db.actions;
    }
    pure (record w {
      items =
          replace action_table action_id
            (record {
              action_id = action_id;
              description = description;
              priority = priority;
              assignee = dept;
              status = state;
            })
            w.items;
    })

  unfoldable pub write_action :
      Work String ActionItem
      → Option String
      → String
      → ℤ
      → Option String
      → Option String
      → Tx (Work String ActionItem)
  unfolding insert_action update_action contains
  write_action w none description priority assignee status =
      insert_action w none description priority assignee status
  write_action w (some action_id) description priority assignee status =
      if contains w.ids action_id
      then update_action w action_id description priority assignee status
      else insert_action w (some action_id) description priority assignee status

  -- the loop body over `actions_patch["upsert"]`
  unfoldable pub upsert_action : Work String ActionItem → ActionUpsert → Tx (Work String ActionItem)
  unfolding write_action valid_priority raise_all is_blank is_none error_if get_or first_text
      or_empty
  upsert_action w u = do
    let description = get_or u.description ""
    let priority = get_or u.priority (int (pos 3))
    raise_all (
        error_if (is_blank description) "actions.description"
        ++ error_if (is_none priority) "actions.priority")
    n ← valid_priority priority
    write_action w (first_text u.camel_action_id u.action_id) (or_empty description) n
        (get_or u.assignee "") (get_or u.status "pending")

  unfoldable pub apply_actions_patch :
      List ActionItem → Edits String ActionUpsert → Tx (List ActionItem)
  unfolding delete_action upsert_action for_each
  apply_actions_patch current patch = do
    deleted ←
        for_each delete_action (record { ids = map (λ a. a.action_id) current; items = current })
          patch.delete
    written ← for_each upsert_action deleted patch.upsert
    pure written.items
