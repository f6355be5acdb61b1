-- ===== src/Platform/Skills.antt =====
-- platform/skill_registry.py and platform/skill_executor.py: the index of the skills by intent, and
-- their quality gates. Files that do not parse or validate are left out by `load_all`; a list of
-- skills is what is left of the sorted paths.
use water_info.Base.{
  ℕ, zero, suc, String, Bool, true, false, not, ◌&&◌, ◌||◌, Option, none, some, List, [], ◌∷◌, ◌++◌,
  ◌==◌, string_eq, if◌then◌else◌, any, leb, ltb, length, map, find, ◌≡◌, refl, arith, Option-cases,
  inl, inr,
}
use water_info.Base
use water_info.Routing.Agents.{Agent}

mutual
  -- A value of the state: what `_read_path` and the gates tell apart. `number` counts thousandths,
  -- `items` is a list of that length.
  pub data Value : Type 0 where
    null : Value
    number : ℕ → Value
    text : String → Value
    items : ℕ → Value
    object : Entries → Value

  pub data Entries : Type 0 where
    nothing : Entries
    entry : String → Value → Entries → Entries

unfoldable pub entry_of : String → Entries → Value
entry_of k nothing = null
entry_of k (entry j v es) = if j == k then v else entry_of k es

unfoldable pub size : Entries → ℕ
size nothing = 0
size (entry j v es) = suc (size es)

-- `value.get(part)` of a dictionary; other values have no such attribute.
unfoldable pub part_of : String → Value → Value
unfolding entry_of
part_of k (object es) = entry_of k es
part_of k _ = null

-- `_read_path`; the path is split at its dots. Once a part is missing the rest is not read.
unfoldable pub read_path : List String → Value → Value
unfolding part_of
read_path [] v = v
read_path (k ∷ path) v = read_path path (part_of k v)

pub record QualityGate : Type 0 where
  pub name : String
  pub check_type : String
  pub target_field : List String
  pub at_least : Bool
  pub threshold : Option ℕ

pub record SkillDefinition : Type 0 where
  pub id : String
  pub trigger_intents : List String
  pub agent_sequence : List Agent
  pub quality_gates : List QualityGate
  pub fallback_strategy : String

unfoldable pub is_present : Value → Bool
is_present null = false
is_present _ = true

unfoldable pub or_zero : Option ℕ → ℕ
or_zero none = 0
or_zero (some n) = n

module _ (float_of : String → ℕ) where
  -- `len(value)` in thousandths, or `float(value or 0)`. `float_of` reads the texts that are numbers.
  unfoldable pub measure : Value → ℕ
  unfolding size
  measure null = 0
  measure (number n) = n
  measure (text s) = if s == "" then 0 else float_of s
  measure (items n) = Base.◌*◌ 1000 n
  measure (object es) = Base.◌*◌ 1000 (size es)

  -- `_evaluate_gate`; `at_least` is `">=" in gate.condition`.
  unfoldable pub evaluate_gate : QualityGate → Value → String × Bool
  unfolding read_path measure is_present or_zero
  evaluate_gate gate state =
      let value = read_path gate.target_field state in
      let bound = or_zero gate.threshold in
      (
        gate.name,
        if gate.check_type == "threshold"
            then (if gate.at_least then leb bound (measure value) else ltb bound (measure value))
            else is_present value,
      )

  unfoldable pub evaluate_quality_gates : SkillDefinition → Value → List (String × Bool)
  unfolding evaluate_gate
  evaluate_quality_gates skill state = map (λ gate. evaluate_gate gate state) skill.quality_gates

abbrev pub triggered : String → SkillDefinition → Option SkillDefinition
triggered i s = if any (λ j. j == i) s.trigger_intents then some s else none

abbrev pub or_else {ℓ} : {A : Type ℓ} → Option A → Option A → Option A
or_else none b = b
or_else (some a) b = some a

-- The index: a dictionary from intents, here its assignments with the last one first.
unfoldable pub index_intents :
    SkillDefinition
    → List String
    → List (String × SkillDefinition)
    → List (String × SkillDefinition)
index_intents skill [] index = index
index_intents skill (i ∷ is) index = index_intents skill is ((i, skill) ∷ index)

unfoldable pub lookup_index : String → List (String × SkillDefinition) → Option SkillDefinition
lookup_index i [] = none
lookup_index i ((j, skill) ∷ index) = if j == i then some skill else lookup_index i index

-- `load_all`: the loop over the files
unfoldable pub load_from :
    List SkillDefinition → List (String × SkillDefinition) → List (String × SkillDefinition)
unfolding index_intents
load_from [] index = index
load_from (s ∷ skills) index = load_from skills (index_intents s s.trigger_intents index)

unfoldable pub lookup_by_intent : List SkillDefinition → String → Option SkillDefinition
unfolding load_from lookup_index
lookup_by_intent skills i = lookup_index i (load_from skills [])

-- A reference: the last of the skills that one of its intents triggers.
abbrev pub last_triggered : String → List SkillDefinition → Option SkillDefinition
last_triggered i [] = none
last_triggered i (s ∷ skills) = or_else (last_triggered i skills) (triggered i s)

indexed :
    (i : String) (s : SkillDefinition) (is : List String) (index : List (String × SkillDefinition))
    → lookup_index i (index_intents s is index)
      ≡ (if any (λ j. j == i) is then some s else lookup_index i index)
unfolding lookup_index index_intents any
indexed i s [] index = refl
indexed i s (j ∷ is) index = ground (arith, indexed i s is ((j, s) ∷ index))

loaded :
    (i : String) (skills : List SkillDefinition) (index : List (String × SkillDefinition))
    → lookup_index i (load_from skills index)
      ≡ or_else (last_triggered i skills) (lookup_index i index)
unfolding load_from
loaded i [] index = refl
loaded i (s ∷ skills) index = elim (Option-cases (last_triggered i skills)) [
  | inr (x, later) ↦
      let rest = loaded i skills (index_intents s s.trigger_intents index) in
      rw later (rw later at rest)
  | inl none_later ↦
      let rest = loaded i skills (index_intents s s.trigger_intents index) in
      let one = indexed i s s.trigger_intents index in ground (arith, rest, one, none_later)
]

-- The registry's skill for an intent is the last, in the order of the files, that the intent
-- triggers.
pub lookup_by_intent-eq-last :
    (skills : List SkillDefinition) (i : String)
    → lookup_by_intent skills i ≡ last_triggered i skills
unfolding lookup_by_intent lookup_index
lookup_by_intent-eq-last skills i =
    let all_loaded = loaded i skills [] in
    elim (Option-cases (last_triggered i skills)) [
      | inl h ↦ rw h (rw h at all_loaded)
      | inr (x, h) ↦ rw h (rw h at all_loaded)
    ]
