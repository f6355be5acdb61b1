-- ===== src/Agents/Parallel.antt =====
-- agents/validation_parallel.py and agents/risk_analysis_parallel.py: the merge of the results of two
-- agents that run at the same time. An agent that raises has no result. `is_truthy` is the truth of a
-- value, V the values, and Message a message.
use water_info.Base.{
  ◌≡◌, refl, ap, ◌∙◌, String, Bool, false, Option, none, some, List, [], ◌∷◌, ◌++◌, if◌then◌else◌,
  ◌==◌, ==_sym, eq_of_==, string_eq, arith, Bool-cases, inl, inr,
}

-- The role and the content.
abbrev pub Message : Type 0
Message = String × String

-- A dictionary: its messages, and the other keys.
pub record AgentResult (V : Type 0) : Type 0 where
  pub fields : List (String × V)
  pub messages : List Message

unfoldable pub lookup : {V : Type 0} → String → List (String × V) → Option V
lookup k [] = none
lookup k ((j, v) ∷ d) = if j == k then some v else lookup k d

-- No key stands twice.
pub data IsKeyed {V : Type 0} : List (String × V) → Type 0 where
  empty : IsKeyed []
  more :
      (k : String) (v : V) (d : List (String × V))
      → lookup k d ≡ none
      → IsKeyed d
      → IsKeyed ((k, v) ∷ d)

-- The value of a key, none for an agent that raised.
unfoldable pub found : {V : Type 0} → String → Option (AgentResult V) → Option V
unfolding lookup
found k none = none
found k (some r) = lookup k r.fields

abbrev pub IsKeyedResult : {V : Type 0} → Option (AgentResult V) → Type 0
IsKeyedResult none = Unit
IsKeyedResult (some r) = IsKeyed r.fields

module _ {V : Type 0} (is_truthy : V → Bool) where
  -- `if key not in merged or not merged[key]: merged[key] = value`
  unfoldable pub put : String → V → List (String × V) → List (String × V)
  put k v [] = (k, v) ∷ []
  put k v ((j, w) ∷ d) =
      let rest = put k v d in
      if j == k then (if is_truthy w then (j, w) ∷ d else (j, v) ∷ d) else (j, w) ∷ rest

  unfoldable pub put_all : List (String × V) → List (String × V) → List (String × V)
  unfolding put
  put_all [] merged = merged
  put_all ((k, v) ∷ d) merged = put_all d (put k v merged)

  unfoldable pub merge_result : Option (AgentResult V) → AgentResult V → AgentResult V
  unfolding put_all
  merge_result none merged = merged
  merge_result (some r) merged = record {
    fields = put_all r.fields merged.fields;
    messages = merged.messages ++ r.messages;
  }

  -- The two nodes: `base` is their own dictionary, with their name and one message.
  unfoldable pub merge_parallel :
      AgentResult V → Option (AgentResult V) → Option (AgentResult V) → AgentResult V
  unfolding merge_result
  merge_parallel base first second = merge_result second (merge_result first base)

  -- What a value that is there does to one that comes later.
  unfoldable pub first_of : Option V → Option V → Option V
  first_of o none = o
  first_of none (some v) = some v
  first_of (some w) (some v) = if is_truthy w then some w else some v

  lookup-put :
      (j k : String) (v : V) (d : List (String × V))
      → lookup j (put k v d) ≡ (if k == j then first_of (lookup j d) (some v) else lookup j d)
  unfolding lookup put first_of
  lookup-put j k v [] = refl
  lookup-put j k v ((i, w) ∷ d) = elim (Bool-cases (i == k)) [
    | inr other ↦ elim (Bool-cases (i == j)) [
      | inr apart ↦ rw (other, lookup, apart) (lookup-put j k v d)
      | inl mine ↦
          let differs : (k == j) ≡ false = rw (← eq_of_== i j mine) (==_sym k i ∙ other) in
          rw (other, lookup, mine, differs) refl
    ]
    | inl same ↦ elim (Bool-cases (is_truthy w)) [
      | inl holds ↦ ground (arith, same, holds, eq_of_== i k same)
      | inr falsy ↦ ground (arith, same, falsy, eq_of_== i k same)
    ]
  ]

  lookup-put_all :
      (j : String) (d merged : List (String × V))
      → IsKeyed d
      → lookup j (put_all d merged) ≡ first_of (lookup j merged) (lookup j d)
  unfolding put_all lookup first_of
  lookup-put_all j d merged empty = refl
  lookup-put_all j d merged (more k v rest alone keyed) =
      let step = lookup-put j k v merged in
      let all = lookup-put_all j rest (put k v merged) keyed in
      elim (Bool-cases (k == j)) [
        | inr other ↦ rw other (all ∙ ap (λ o. first_of o (lookup j rest)) (rw other at step))
        | inl mine ↦
            let gone : lookup j rest ≡ none = rw (← eq_of_== k j mine) alone in
            let now = lookup j (put k v merged) in
            rw mine (all ∙ ap (first_of now) gone ∙ (rw mine at step))
      ]

  lookup-merge_result :
      (k : String) (o : Option (AgentResult V)) (merged : AgentResult V)
      → IsKeyedResult o
      → lookup k (merge_result o merged).fields ≡ first_of (lookup k merged.fields) (found k o)
  unfolding merge_result found first_of
  lookup-merge_result k none merged h = refl
  lookup-merge_result k (some r) merged h = lookup-put_all k r.fields merged.fields h

  -- For every key the merge holds the first value that is true, of the node's own dictionary and the two
  -- results in their order, and else the last value that is there.
  pub merge_parallel-first :
      (k : String) (base : AgentResult V) (first second : Option (AgentResult V))
      → IsKeyedResult first
      → IsKeyedResult second
      → lookup k (merge_parallel base first second).fields
        ≡ first_of (first_of (lookup k base.fields) (found k first)) (found k second)
  unfolding merge_parallel
  merge_parallel-first k base first second h₁ h₂ =
      lookup-merge_result k second (merge_result first base) h₂
      ∙ ap (λ o. first_of o (found k second)) (lookup-merge_result k first base h₁)
