-- ===== src/Plan/Snapshot.antt =====
-- The data of services/plan_diff.py: a plan's snapshot and the entries of a diff.
use water_info.Base.{ℕ, ℤ, pos, String, Option, List, [], ◌∷◌}

-- A value of a field: text or an integer.
pub data Scalar : Type 0 where
  text : String → Scalar
  number : ℤ → Scalar

-- What `_serialize` is given: a field's value, or an item as a dictionary.
pub data Value : Type 0 where
  scalar : Scalar → Value
  object : List (String × Scalar) → Value

-- What the code takes from Python and its libraries: `json.dumps(v, ensure_ascii=False,
-- sort_keys=True)`, `str` of an integer, `str.strip`, and the first eight digits of the n-th
-- `uuid.uuid4()`.
pub record Runtime : Type 0 where
  pub dumps : Value → String
  pub show : ℕ → String
  pub strip : String → String
  pub uuid8 : ℕ → String

pub record ActionItem : Type 0 where
  pub action_id : String
  pub description : String
  pub priority : ℤ
  pub assignee : String
  pub status : String

pub record ResourceItem : Type 0 where
  pub resource_id : ℕ
  pub type : String
  pub name : String
  pub quantity : ℤ
  pub location : String

pub record NotificationItem : Type 0 where
  pub notification_id : ℕ
  pub channel : String
  pub target : String
  pub message : String
  pub status : String

pub record PlanSnapshot : Type 0 where
  pub summary : String
  pub actions : List ActionItem
  pub resources : List ResourceItem
  pub notifications : List NotificationItem

pub data ChangeType : Type 0 where
  add delete modify : ChangeType

pub record ChangeEntry : Type 0 where
  pub field_path : String
  pub change_type : ChangeType
  pub old_value : Option String
  pub new_value : Option String
  pub old_index : Option ℕ
  pub new_index : Option ℕ

unfoldable pub serialize : Runtime → Value → String
serialize rt (scalar (text s)) = s
serialize rt v = rt.dumps v

unfoldable pub action_to_dict : ActionItem → Value
action_to_dict item = object (
    ("action_id", text item.action_id)
    ∷ ("description", text item.description)
    ∷ ("priority", number item.priority)
    ∷ ("assignee", text item.assignee)
    ∷ ("status", text item.status)
    ∷ [])

unfoldable pub resource_to_dict : ResourceItem → Value
resource_to_dict item = object (
    ("resource_id", number (pos item.resource_id))
    ∷ ("type", text item.type)
    ∷ ("name", text item.name)
    ∷ ("quantity", number item.quantity)
    ∷ ("location", text item.location)
    ∷ [])

unfoldable pub notification_to_dict : NotificationItem → Value
notification_to_dict item = object (
    ("notification_id", number (pos item.notification_id))
    ∷ ("channel", text item.channel)
    ∷ ("target", text item.target)
    ∷ ("message", text item.message)
    ∷ ("status", text item.status)
    ∷ [])
