-- ===== src/Plan/Patch.antt =====
-- services/plan_review.py: the snapshot of a plan and the edits of a patch (`_build_snapshot`,
-- `_apply_patch` and the three `_apply_*_patch`).
use Prim.Native.String.{count}
pub mod Args
pub mod Actions
pub mod Resources
pub mod Notifications
pub mod Apply
pub mod Frame
pub mod Tracks
use water_info.Base.{
  ◌≡◌, refl, ℕ, suc, ◌+◌, ℤ, pos, negsuc, String, Bool, true, false, not, ◌&&◌, ◌||◌, Option, none,
  some, List, [], ◌∷◌, ◌++◌, map, Eq, ◌==◌, if◌then◌else◌, keep, any, leb, string_eq, nat_eq,
}
use water_info.Base.Int.{int_leb, is_int4, int_eq}
use water_info.Base.Sort.{sort}
use water_info.Plan.Snapshot.{Runtime, ActionItem, ResourceItem, NotificationItem, PlanSnapshot}
use water_info.Plan.Tables.{
  Db, ActionRow, ResourceRow, NotificationRow, delete_where, update_where, varchar,
}
use water_info.Plan.Tables.Views.{Table, view, at_key, without, replace}
use water_info.Plan.Tx.{
  Error, action_not_found, resource_not_found, notification_not_found, validation_failed,
  server_error, Tx, pure, raise, gets, exec, require, ◌>>=◌, ◌>>◌,
}

-- A member of a JSON object: missing, null, or a value.
pub data Arg (A : Type 0) : Type 0 where
  absent null : Arg A
  given : A → Arg A

-- `item.get(name, default)`, where `none` is Python's None.
unfoldable pub get_or : {A : Type 0} → Arg A → A → Option A
get_or absent default = some default
get_or null default = none
get_or (given a) default = some a

-- A number in JSON, as `isinstance(value, int)` tells them apart.
pub data Number : Type 0 where
  int : ℤ → Number
  not_int : Number

-- An identifier in JSON: a number, or text with the integer that `int` reads from it.
pub data IdArg : Type 0 where
  number : ℤ → IdArg
  numeral : Option ℤ → IdArg
  empty_text : IdArg

pub record ActionUpsert : Type 0 where
  pub camel_action_id : Arg String
  pub action_id : Arg String
  pub description : Arg String
  pub priority : Arg Number
  pub assignee : Arg String
  pub status : Arg String

pub record ResourceUpsert : Type 0 where
  pub camel_resource_id : Arg IdArg
  pub resource_id : Arg IdArg
  pub type : Arg String
  pub name : Arg String
  pub quantity : Arg Number
  pub location : Arg String

pub record NotificationUpsert : Type 0 where
  pub camel_notification_id : Arg IdArg
  pub notification_id : Arg IdArg
  pub channel : Arg String
  pub target : Arg String
  pub message : Arg String
  pub status : Arg String

pub record Edits (D U : Type 0) : Type 0 where
  pub delete : List D
  pub upsert : List U

-- The value of `summary`, as `isinstance(value, str)` tells them apart.
pub data Summary : Type 0 where
  text : String → Summary
  not_text : Summary

-- A patch whose objects have members of the types that the front end sends. A list of edits that
-- is missing, null or empty is `none` or empty.
pub record PlanPatch : Type 0 where
  pub summary : Arg Summary
  pub actions : Option (Edits String ActionUpsert)
  pub resources : Option (Edits IdArg ResourceUpsert)
  pub notifications : Option (Edits IdArg NotificationUpsert)

-- The rows as items of a snapshot. The columns are NOT NULL, so that `or ""` changes nothing.
unfoldable pub action_item : ActionRow → ActionItem
action_item r = record {
  action_id = r.action_id;
  description = r.description;
  priority = r.priority;
  assignee = r.responsible_dept;
  status = r.status;
}

unfoldable pub resource_item : ResourceRow → ResourceItem
resource_item r = record {
  resource_id = r.id;
  type = r.resource_type;
  name = r.resource_name;
  quantity = r.quantity;
  location = r.source_location;
}

unfoldable pub notification_item : NotificationRow → NotificationItem
notification_item r = record {
  notification_id = r.id;
  channel = r.channel;
  target = r.target;
  message = r.content;
  status = r.status;
}

pub action_key-item : (r : ActionRow) → (action_item r).action_id ≡ r.action_id
unfolding action_item
action_key-item r = refl

pub resource_key-item : (r : ResourceRow) → (resource_item r).resource_id ≡ r.id
unfolding resource_item
resource_key-item r = refl

pub notification_key-item : (r : NotificationRow) → (notification_item r).notification_id ≡ r.id
unfolding notification_item
notification_key-item r = refl

abbrev pub action_table : Table ActionRow ActionItem String
action_table = record {
  owner = λ r. r.plan_id;
  row_key = λ r. r.action_id;
  item = action_item;
  key = λ a. a.action_id;
  key-item = action_key-item;
}

abbrev pub resource_table : Table ResourceRow ResourceItem ℕ
resource_table = record {
  owner = λ r. r.plan_id;
  row_key = λ r. r.id;
  item = resource_item;
  key = λ r. r.resource_id;
  key-item = resource_key-item;
}

abbrev pub notification_table : Table NotificationRow NotificationItem ℕ
notification_table = record {
  owner = λ r. r.plan_id;
  row_key = λ r. r.id;
  item = notification_item;
  key = λ n. n.notification_id;
  key-item = notification_key-item;
}

-- SELECT ... WHERE plan_id = p ORDER BY priority ASC (or id ASC). Rows that the order leaves equal
-- stand in the order of the table.
unfoldable pub build_snapshot : Db → String → String → PlanSnapshot
unfolding sort keep
build_snapshot db p summary = record {
  summary = summary;
  actions =
      map action_item
        (sort (λ a b. int_leb a.priority b.priority) (keep (λ r. r.plan_id == p) db.actions));
  resources =
      map resource_item (sort (λ a b. leb a.id b.id) (keep (λ r. r.plan_id == p) db.resources));
  notifications =
      map notification_item
        (sort (λ a b. leb a.id b.id) (keep (λ r. r.plan_id == p) db.notifications));
}

-- The variables of the loops over a patch: the keys of `actions_by_id`, and `result`.
pub record Work (K A : Type 0) : Type 0 where
  pub ids : List K
  pub items : List A

-- for x in xs: s = body(s, x)
module _ {S X : Type 0} where
  unfoldable pub for_each : (S → X → Tx S) → S → List X → Tx S
  for_each body s [] = pure s
  for_each body s (x ∷ xs) = body s x >>= λ s'. for_each body s' xs

unfoldable pub contains : {K : Type 0} ⦃e : Eq K⦄ → List K → K → Bool
unfolding any
contains ids k = any (λ j. j == k) ids
