-- ===== src/Plan/Diff.antt =====
-- services/plan_diff.py: the field-level diff of two snapshots. Its dictionaries are association
-- lists in the order of insertion.
pub mod Index
pub mod Reference
pub mod Located
pub mod Complete
use Prim.Native.String.{◌++◌ as ◌<>◌}
use water_info.Base.{
  ℕ, suc, String, Bool, true, false, not, Option, none, some, List, [], ◌∷◌, ◌++◌, map, Eq, ◌==◌,
  if◌then◌else◌, keep, leb, nat_beq, string_eq, nat_eq,
}
use water_info.Base.Int.{int_beq}
use water_info.Base.Sort.{sort}
use water_info.Plan.Snapshot.{
  Scalar, text, number, Value, scalar, Runtime, ActionItem, ResourceItem, NotificationItem,
  PlanSnapshot, add, delete, modify, ChangeEntry, serialize, action_to_dict, resource_to_dict,
  notification_to_dict,
}

-- `old_val != new_val` is the negation of this.
unfoldable pub scalar_beq : Scalar → Scalar → Bool
scalar_beq (text a) (text b) = a == b
scalar_beq (number a) (number b) = int_beq a b
scalar_beq (text a) (number b) = false
scalar_beq (number a) (text b) = false

module _ {K V : Type 0} ⦃e : Eq K⦄ where
  -- `d.get(k)`, `k in d`, `d[k] = v`
  unfoldable pub get : K → List (K × V) → Option V
  get k [] = none
  get k ((j, v) ∷ d) = if j == k then some v else get k d

  unfoldable pub has : K → List (K × V) → Bool
  has k [] = false
  has k ((j, v) ∷ d) = if j == k then true else has k d

  unfoldable pub put : K → V → List (K × V) → List (K × V)
  put k v [] = (k, v) ∷ []
  put k v ((j, w) ∷ d) = if j == k then (j, v) ∷ d else (j, w) ∷ put k v d

-- The arguments of `_diff_list_section` that describe a section.
pub record Section (A K : Type 0) : Type 0 where
  pub key : A → K
  pub show_key : K → String
  pub prefix : String
  pub fields : List (String × (A → Scalar))
  pub to_dict : A → Value

-- An entry of the maps by key: the item's key, position and value.
abbrev pub Indexed : Type 0 → Type 0 → Type 0
Indexed A K = K × (ℕ × A)

module _ (rt : Runtime) {A K : Type 0} ⦃e : Eq K⦄ (s : Section A K) where
  open s use {key, show_key, prefix, fields, to_dict}

  -- `for idx, item in enumerate(items): items_map[key] = (idx, item)`
  unfoldable pub index_from : ℕ → List A → List (Indexed A K) → List (Indexed A K)
  unfolding put
  index_from i [] d = d
  index_from i (x ∷ xs) d = index_from (suc i) xs (put (key x) (i, x) d)

  unfoldable pub index_map : List A → List (Indexed A K)
  unfolding index_from
  index_map xs = index_from 0 xs []

  -- `sorted(..., key=lambda k: the_map[k][0])`
  abbrev pub by_index : Indexed A K → Indexed A K → Bool
  by_index a b = leb a.1.0 b.1.0

  unfoldable pub entry_path : K → String
  entry_path k = prefix <> "[" <> show_key k <> "]"

  unfoldable pub deleted_entry : Indexed A K → ChangeEntry
  unfolding entry_path
  deleted_entry (k, (i, x)) = record {
    field_path = entry_path k;
    change_type = delete;
    old_value = some (serialize rt (to_dict x));
    new_value = none;
    old_index = some i;
    new_index = none;
  }

  unfoldable pub added_entry : Indexed A K → ChangeEntry
  unfolding entry_path
  added_entry (k, (i, x)) = record {
    field_path = entry_path k;
    change_type = add;
    old_value = none;
    new_value = some (serialize rt (to_dict x));
    old_index = none;
    new_index = some i;
  }

  unfoldable pub moved_entry : K → ℕ → ℕ → ChangeEntry
  unfolding entry_path
  moved_entry k i j = record {
    field_path = entry_path k;
    change_type = modify;
    old_value = none;
    new_value = none;
    old_index = some i;
    new_index = some j;
  }

  unfoldable pub field_entry : K → String → Scalar → Scalar → ChangeEntry
  unfolding entry_path
  field_entry k f old new = record {
    field_path = entry_path k <> "." <> f;
    change_type = modify;
    old_value = some (serialize rt (scalar old));
    new_value = some (serialize rt (scalar new));
    old_index = none;
    new_index = none;
  }

  -- the loop over `comparable_fields`
  unfoldable pub field_changes : K → List (String × (A → Scalar)) → A → A → List ChangeEntry
  unfolding field_entry scalar_beq
  field_changes k [] old new = []
  field_changes k ((f, read) ∷ fs) old new =
      let rest = field_changes k fs old new in
      if scalar_beq (read old) (read new)
      then rest
      else field_entry k f (read old) (read new) ∷ rest

  unfoldable pub or_moved : List ChangeEntry → K → ℕ → ℕ → List ChangeEntry
  unfolding moved_entry
  or_moved (c ∷ cs) k i j = c ∷ cs
  or_moved [] k i j = if nat_beq i j then [] else moved_entry k i j ∷ []

  unfoldable pub common_changes : Indexed A K → Option (ℕ × A) → List ChangeEntry
  unfolding field_changes or_moved
  common_changes (k, (i, old)) none = []
  common_changes (k, (i, old)) (some (j, new)) = or_moved (field_changes k fields old new) k i j

  unfoldable pub all_common : List (Indexed A K) → List (Indexed A K) → List ChangeEntry
  unfolding common_changes get
  all_common [] new_map = []
  all_common (x ∷ xs) new_map = common_changes x (get x.0 new_map) ++ all_common xs new_map

  unfoldable pub diff_list_section : List A → List A → List ChangeEntry
  unfolding index_map deleted_entry added_entry all_common has keep sort
  diff_list_section old_items new_items =
      let old_map = index_map old_items in
      let new_map = index_map new_items in
      map deleted_entry (sort by_index (keep (λ x. not (has x.0 new_map)) old_map))
      ++ (map added_entry (sort by_index (keep (λ x. not (has x.0 old_map)) new_map))
          ++ all_common (sort by_index (keep (λ x. has x.0 new_map) old_map)) new_map)

unfoldable pub diff_summary : String → String → List ChangeEntry
diff_summary old new =
    if old == new
    then []
    else record {
      field_path = "summary";
      change_type = modify;
      old_value = some old;
      new_value = some new;
      old_index = none;
      new_index = none;
    }
      ∷ []

abbrev pub action_section : Section ActionItem String
action_section = record {
  key = λ a. a.action_id;
  show_key = λ k. k;
  prefix = "actions";
  fields =
      ("description", λ a. text a.description)
      ∷ ("priority", λ a. number a.priority)
      ∷ ("assignee", λ a. text a.assignee)
      ∷ ("status", λ a. text a.status)
      ∷ [];
  to_dict = action_to_dict;
}

abbrev pub resource_section : Runtime → Section ResourceItem ℕ
resource_section rt = record {
  key = λ r. r.resource_id;
  show_key = rt.show;
  prefix = "resources";
  fields =
      ("type", λ r. text r.type)
      ∷ ("name", λ r. text r.name)
      ∷ ("quantity", λ r. number r.quantity)
      ∷ ("location", λ r. text r.location)
      ∷ [];
  to_dict = resource_to_dict;
}

abbrev pub notification_section : Runtime → Section NotificationItem ℕ
notification_section rt = record {
  key = λ n. n.notification_id;
  show_key = rt.show;
  prefix = "notifications";
  fields =
      ("channel", λ n. text n.channel)
      ∷ ("target", λ n. text n.target)
      ∷ ("message", λ n. text n.message)
      ∷ ("status", λ n. text n.status)
      ∷ [];
  to_dict = notification_to_dict;
}

unfoldable pub diff_plan : Runtime → PlanSnapshot → PlanSnapshot → List ChangeEntry
unfolding diff_summary diff_list_section
diff_plan rt old new =
    diff_summary old.summary new.summary
    ++ (diff_list_section rt action_section old.actions new.actions
        ++ (diff_list_section rt (resource_section rt) old.resources new.resources
            ++ diff_list_section rt (notification_section rt) old.notifications new.notifications))
