-- ===== src/Plan/Patch/Resources.antt =====
-- services/plan_review.py: `_apply_resources_patch`.
use water_info.Base.{
  ℕ, ◌+◌, ℤ, pos, String, Bool, not, ◌&&◌, Option, none, some, List, [], ◌∷◌, ◌++◌, map, ◌==◌, keep,
  string_eq, nat_eq,
}
use water_info.Base.Int.{is_int4}
use water_info.Plan.Snapshot.{ResourceItem}
use water_info.Plan.Tables.{ResourceRow, delete_where, update_where, varchar}
use water_info.Plan.Tables.Views.{at_key, without, replace}
use water_info.Plan.Tx.{
  resource_not_found, server_error, Tx, pure, raise, gets, exec, require, ◌>>=◌, ◌>>◌,
}
use water_info.Plan.Patch.{
  get_or, int, IdArg, ResourceUpsert, Edits, Work, resource_item, resource_table, for_each,
}
use water_info.Plan.Patch.Args.{
  not_null, is_blank, is_none, or_empty, error_if, raise_all, first_id, find_id, int_of, known_id,
  valid_quantity,
}

module _ (plan_id : String) (now : ℕ) where
  -- `if rid not in resources_by_id: raise ...`
  unfoldable pub known_resource : ℤ → Option ℕ → Tx ℕ
  known_resource n none = raise (resource_not_found n)
  known_resource n (some k) = pure k

  -- the loop body over `resources_patch["delete"]`
  unfoldable pub delete_resource : Work ℕ ResourceItem → IdArg → Tx (Work ℕ ResourceItem)
  unfolding delete_where without keep int_of known_id known_resource
  delete_resource w resource_id = do
    rid ← int_of resource_id
    k ← known_resource rid (known_id w.ids rid)
    exec λ db. record db { resources = delete_where (at_key resource_table plan_id k) db.resources }
    pure (record { ids = keep (λ j. not (j == k)) w.ids; items = without resource_table k w.items })

  -- The columns of the table, and a quantity of 32 bits.
  abbrev resource_columns : String → String → ℤ → String → Bool
  resource_columns type name quantity location =
      varchar 64 type && varchar 128 name && is_int4 quantity && varchar 255 location

  unfoldable pub update_resource :
      Work ℕ ResourceItem → ℕ → String → String → ℤ → Option String → Tx (Work ℕ ResourceItem)
  unfolding not_null update_where replace
  update_resource w rid type name quantity location = do
    place ← not_null location
    require (resource_columns type name quantity place) server_error
    exec λ db. record db {
      resources =
          update_where (at_key resource_table plan_id rid)
            (λ r. record r {
              resource_type = type;
              resource_name = name;
              quantity = quantity;
              source_location = place;
            })
            db.resources;
    }
    pure (record w {
      items =
          replace resource_table rid
            (record {
              resource_id = rid;
              type = type;
              name = name;
              quantity = quantity;
              location = place;
            })
            w.items;
    })

  -- `RETURNING id`: the next value of the sequence, drawn also where the statement then fails.
  unfoldable pub next_resource_id : Tx ℕ
  next_resource_id = do
    n ← gets λ db. db.seq.resource_id
    exec λ db. record db { seq = record db.seq { resource_id = n + 1 } }
    pure n

  unfoldable pub insert_resource :
      Work ℕ ResourceItem → String → String → ℤ → Option String → Tx (Work ℕ ResourceItem)
  unfolding not_null next_resource_id resource_item
  insert_resource w type name quantity location = do
    new_id ← next_resource_id
    place ← not_null location
    require (resource_columns type name quantity place) server_error
    let row : ResourceRow = record {
      id = new_id;
      plan_id = plan_id;
      resource_type = type;
      resource_name = name;
      quantity = quantity;
      source_location = place;
      target_location = "";
      eta_minutes = none;
      created_at = now;
    }
    exec λ db. record db { resources = db.resources ++ row ∷ [] }
    pure (record { ids = w.ids ++ new_id ∷ []; items = w.items ++ resource_item row ∷ [] })

  unfoldable pub write_resource :
      Work ℕ ResourceItem
      → Option ℕ
      → String
      → String
      → ℤ
      → Option String
      → Tx (Work ℕ ResourceItem)
  unfolding update_resource insert_resource
  write_resource w (some rid) type name quantity location =
      update_resource w rid type name quantity location
  write_resource w none type name quantity location = insert_resource w type name quantity location

  -- the loop body over `resources_patch["upsert"]`
  unfoldable pub upsert_resource : Work ℕ ResourceItem → ResourceUpsert → Tx (Work ℕ ResourceItem)
  unfolding write_resource valid_quantity raise_all is_blank is_none error_if get_or first_id
      or_empty find_id
  upsert_resource w u = do
    let type = get_or u.type ""
    let name = get_or u.name ""
    let quantity = get_or u.quantity (int (pos 0))
    raise_all (
        error_if (is_blank type) "resources.type"
        ++ (error_if (is_blank name) "resources.name"
            ++ error_if (is_none quantity) "resources.quantity"))
    n ← valid_quantity quantity
    target ← find_id w.ids (first_id u.camel_resource_id u.resource_id)
    write_resource w target (or_empty type) (or_empty name) n (get_or u.location "")

  unfoldable pub apply_resources_patch :
      List ResourceItem → Edits IdArg ResourceUpsert → Tx (List ResourceItem)
  unfolding delete_resource upsert_resource for_each
  apply_resources_patch current patch = do
    deleted ←
        for_each delete_resource
          (record { ids = map (λ r. r.resource_id) current; items = current }) patch.delete
    written ← for_each upsert_resource deleted patch.upsert
    pure written.items
