-- ===== src/Platform/Validator.antt =====
-- platform/dispatch_validator.py: which allocations of a dispatch plan are accepted. The inventory
-- service and `str.lower` are parameters.
use water_info.Base.{
  suc, ◌+◌, ℤ, pos, String, ◌≡◌, refl, Bool, true, false, not, ◌||◌, Option, none, some, List, [],
  ◌∷◌, ◌==◌, string_eq, if◌then◌else◌, length, All, arith,
}
use water_info.Base.Int.{int_leb}

-- An allocation; a missing text is "". The quantity is that of `int(...)`, and 0 where it raises.
pub record Allocation : Type 0 where
  pub resource_id : String
  pub quantity : ℤ
  pub status : String
  pub source_location : String
  pub from_location : String
  pub target_location : String
  pub to_location : String

-- What the inventory knows of a resource: `quantity`, or `available_quantity` where that is 0.
pub record Resource : Type 0 where
  pub quantity : ℤ
  pub status : String
  pub location : String

pub record ResourceAllocationOutput : Type 0 where
  pub resource_id : String
  pub quantity : ℤ
  pub status : String
  pub source_location : String
  pub target_location : String

pub data Rule : Type 0 where
  existence quantity_rule status_rule location_rule : Rule

pub record ValidationFailure : Type 0 where
  pub resource_id : String
  pub rule : Rule

pub record DispatchValidationResult : Type 0 where
  pub valid_allocations : List ResourceAllocationOutput
  pub rejected_allocations : List ValidationFailure

-- `a or b`
unfoldable pub or_else : String → String → String
or_else a b = if a == "" then b else a

pub record Inventory : Type 0 where
  pub get_resource : String → Option Resource
  pub is_known_location : String → Bool
  pub lower : String → String

module _ (inventory : Inventory) where
  unfoldable pub lookup : String → Option Resource
  lookup resource_id = if resource_id == "" then none else inventory.get_resource resource_id

  -- The first rule that an allocation breaks.
  unfoldable pub broken_rule : Allocation → Option Resource → Option Rule
  unfolding or_else
  broken_rule a none = some existence
  broken_rule a (some resource) =
      if int_leb a.quantity (pos 0) || not (int_leb a.quantity resource.quantity)
      then some quantity_rule
      else if not (inventory.lower resource.status == "available")
      then some status_rule
      else if not (inventory.is_known_location (or_else a.target_location a.to_location))
      then some location_rule
      else none

  unfoldable pub output : Allocation → Option Resource → ResourceAllocationOutput
  unfolding or_else
  output a resource = record {
    resource_id = a.resource_id;
    quantity = a.quantity;
    status = or_else a.status "validated";
    source_location = or_else a.source_location (or_else a.from_location (place resource));
    target_location = or_else a.target_location a.to_location;
  }
    where
      place : Option Resource → String
      place none = ""
      place (some r) = r.location

  unfoldable pub judge :
      Allocation → Option Rule → DispatchValidationResult → DispatchValidationResult
  unfolding output lookup
  judge a none rest = record rest {
    valid_allocations = output a (lookup a.resource_id) ∷ rest.valid_allocations;
  }
  judge a (some rule) rest = record rest {
    rejected_allocations =
        record { resource_id = a.resource_id; rule = rule } ∷ rest.rejected_allocations;
  }

  unfoldable pub validate_dispatch_plan : List Allocation → DispatchValidationResult
  unfolding judge broken_rule lookup
  validate_dispatch_plan [] = record { valid_allocations = []; rejected_allocations = [] }
  validate_dispatch_plan (a ∷ allocations) =
      judge a (broken_rule a (lookup a.resource_id)) (validate_dispatch_plan allocations)

  -- An output that the inventory can serve.
  pub record Served (o : ResourceAllocationOutput) : Type 0 where
    pub resource : Resource
    pub in_stock : inventory.get_resource o.resource_id ≡ some resource
    pub positive : int_leb o.quantity (pos 0) ≡ false
    pub enough : int_leb o.quantity resource.quantity ≡ true
    pub available : (inventory.lower resource.status == "available") ≡ true
    pub known_place : inventory.is_known_location o.target_location ≡ true

  lookup-some : (s : String) (r : Resource) → lookup s ≡ some r → inventory.get_resource s ≡ some r
  unfolding lookup
  lookup-some s r h = ground arith

  output-Served :
      (a : Allocation) (o : Option Resource)
      → lookup a.resource_id ≡ o
      → broken_rule a o ≡ none
      → Served (output a o)
  unfolding broken_rule output or_else
  output-Served a none e h = cc
  output-Served a (some r) e h = record {
    resource = r;
    in_stock = lookup-some a.resource_id r e;
    positive = ground (arith, h);
    enough = ground (arith, h);
    available = ground (arith, h);
    known_place = ground (arith, h);
  }

  -- Every accepted allocation is one that the inventory can serve: the resource exists and is
  -- available, the quantity is positive and at most what is in stock, and the place is known.
  pub validate_dispatch_plan-Served :
      (allocations : List Allocation)
      → All Served (validate_dispatch_plan allocations).valid_allocations
  unfolding validate_dispatch_plan
  validate_dispatch_plan-Served [] = tt
  validate_dispatch_plan-Served (a ∷ allocations) =
      judged (broken_rule a (lookup a.resource_id)) refl (validate_dispatch_plan-Served allocations)
    where
      judged :
          (o : Option Rule)
          → broken_rule a (lookup a.resource_id) ≡ o
          → All Served (validate_dispatch_plan allocations).valid_allocations
          → All Served (judge a o (validate_dispatch_plan allocations)).valid_allocations
      judged none e rest = (output-Served a (lookup a.resource_id) refl e, rest)
      judged (some rule) e rest = rest

  -- Every allocation is either accepted or rejected.
  pub length-validate_dispatch_plan :
      (allocations : List Allocation)
      → let result = validate_dispatch_plan allocations in
        length result.valid_allocations + length result.rejected_allocations ≡ length allocations
  unfolding validate_dispatch_plan
  length-validate_dispatch_plan [] = omega arith
  length-validate_dispatch_plan (a ∷ allocations) =
      judged (broken_rule a (lookup a.resource_id)) (length-validate_dispatch_plan allocations)
    where
      judged :
          (o : Option Rule)
          → (let r = validate_dispatch_plan allocations in
              length r.valid_allocations + length r.rejected_allocations ≡ length allocations)
          → let r = judge a o (validate_dispatch_plan allocations) in
            length r.valid_allocations + length r.rejected_allocations ≡ suc (length allocations)
      judged none h = omega (arith, h)
      judged (some rule) h = omega (arith, h)
