-- ===== src/Plan/Patch/Args.antt =====
-- services/plan_review.py: how the loops of a patch read the members of an item.
use water_info.Base.{
  ℕ, zero, ℤ, pos, negsuc, String, Bool, true, false, ◌&&◌, Option, none, some, List, [], ◌∷◌, ◌==◌,
  if◌then◌else◌, string_eq, nat_eq,
}
use water_info.Base.Int.{int_leb}
use water_info.Plan.Tx.{validation_failed, server_error, Tx, pure, raise, require, ◌>>=◌}
use water_info.Plan.Patch.{
  Arg, absent, null, given, Number, int, IdArg, number, numeral, empty_text, contains,
}

-- A column NOT NULL that is given None.
unfoldable pub not_null : Option String → Tx String
not_null none = raise server_error
not_null (some s) = pure s

-- `not value`, of a text or None
unfoldable pub is_blank : Option String → Bool
is_blank none = true
is_blank (some s) = s == ""

unfoldable pub is_none : {A : Type 0} → Option A → Bool
is_none none = true
is_none (some a) = false

unfoldable pub or_empty : Option String → String
or_empty none = ""
or_empty (some s) = s

-- `if test: errors.append(field)`
unfoldable pub error_if : Bool → String → List String
error_if test field = if test then field ∷ [] else []

-- `if errors: raise ValidationFailedError(errors)`
unfoldable pub raise_all : List String → Tx (Unit {0})
raise_all [] = pure tt
raise_all (e ∷ es) = raise (validation_failed (e ∷ es))

unfoldable pub given_text : Arg String → Option String
given_text absent = none
given_text null = none
given_text (given s) = some s

-- `item.get(a) or item.get(b)`, for texts and for identifiers
unfoldable pub first_text : Arg String → Arg String → Option String
unfolding given_text
first_text absent b = given_text b
first_text null b = given_text b
first_text (given s) b = if s == "" then given_text b else some s

unfoldable pub given_id : Arg IdArg → Option IdArg
given_id absent = none
given_id null = none
given_id (given x) = some x

unfoldable pub first_id : Arg IdArg → Arg IdArg → Option IdArg
unfolding given_id
first_id absent b = given_id b
first_id null b = given_id b
first_id (given (number (pos zero))) b = given_id b
first_id (given empty_text) b = given_id b
first_id (given x) b = some x

-- `int(x)`
unfoldable pub int_of : IdArg → Tx ℤ
int_of (number n) = pure n
int_of (numeral (some n)) = pure n
int_of (numeral none) = raise server_error
int_of empty_text = raise server_error

-- The key that an integer is, if the map has it.
unfoldable pub known_id : List ℕ → ℤ → Option ℕ
unfolding contains
known_id ids (pos n) = if contains ids n then some n else none
known_id ids (negsuc n) = none

-- `resource_id is not None and int(resource_id) in resources_by_id`
unfoldable pub find_id : List ℕ → Option IdArg → Tx (Option ℕ)
unfolding int_of known_id
find_id ids none = pure none
find_id ids (some x) = int_of x >>= λ n. pure (known_id ids n)

-- `priority < 1 or priority > 5`, negated, and only for an integer
unfoldable pub valid_priority : Option Number → Tx ℤ
valid_priority (some (int n)) =
    require (int_leb (pos 1) n && int_leb n (pos 5)) (validation_failed ("actions.priority" ∷ []))
    >>= λ _. pure n
valid_priority _ = raise (validation_failed ("actions.priority" ∷ []))

-- `quantity < 0`, negated, and only for an integer
unfoldable pub valid_quantity : Option Number → Tx ℤ
valid_quantity (some (int n)) =
    require (int_leb (pos 0) n) (validation_failed ("resources.quantity" ∷ [])) >>= λ _. pure n
valid_quantity _ = raise (validation_failed ("resources.quantity" ∷ []))
