-- ===== src/Examples/Agents.antt =====
-- Checks, merges and documents.
use water_info.Base.{
  String, ◌≡◌, refl, ◌↔◌, Bool, true, false, none, some, [], ◌∷◌, ◌++◌, map, any, ◌==◌, string_eq,
  keep,
}
use water_info.Agents.Parallel
use water_info.Agents.Parallel.{
  AgentResult, IsKeyed, empty, more, IsKeyedResult, merge_parallel, merge_parallel-first, first_of,
  found,
}
use water_info.Agents.Safety.{
  Action, extract_actions, safety_checker_node, safety_checker_node-approvals, high_risk_actions,
  asks,
}
use water_info.Retrieval.Filter.{Metadata}
use water_info.Retrieval.Splitter.{Text, Texts, TextBlock}

abbrev action : String → Action
action t = record { action_type = t; description = "" }

safety_checker_node-approvals_example :
    let (result, pending) =
      safety_checker_node
        (extract_actions (action "evacuation" ∷ action "patrol" ∷ []) [] (action "" ∷ [])) in
    (pending
      ≡ map
          (λ a. asks a.action_type a)
          (keep
            (λ a. any (λ t. t == a.action_type) high_risk_actions)
            (action "evacuation" ∷ action "patrol" ∷ []))
        ++ []
        ++ map (asks "external_notification") (action "" ∷ []))
    × ((result.safe_to_proceed ≡ true) ↔ (pending ≡ []))
safety_checker_node-approvals_example =
    safety_checker_node-approvals (action "evacuation" ∷ action "patrol" ∷ []) [] (action "" ∷ [])

abbrev result_of : String → Bool → AgentResult Bool
result_of k v = record { fields = (k, v) ∷ []; messages = [] }

one_field : (k : String) (v : Bool) → IsKeyedResult (some (result_of k v))
unfolding Parallel.lookup
one_field k v = more k v [] refl empty

merge_parallel-first_example :
    Parallel.lookup "safe"
      (merge_parallel
        (λ b. b)
        (result_of "name" true)
        (some (result_of "safe" false))
        (some (result_of "safe" true))).fields
    ≡ first_of
        (λ b. b)
        (first_of
          (λ b. b)
          (Parallel.lookup "safe" ((("name", true)) ∷ []))
          (found "safe" (some (result_of "safe" false))))
        (found "safe" (some (result_of "safe" true)))
merge_parallel-first_example =
    merge_parallel-first (λ b. b) "safe" (result_of "name" true) (some (result_of "safe" false))
      (some (result_of "safe" true)) (one_field "safe" false) (one_field "safe" true)

-- Without an encoder; one sentence.
abbrev texts : Texts
texts = record { encoder = none; strip = λ t. t; sentences = λ t. t ∷ [] }

abbrev no_metadata : Metadata
no_metadata = record {
  doc_type = none;
  basin_code = none;
  station_id = none;
  authority_level = none;
  risk_level_applicable = none;
  region_code = none;
  effective_date = none;
  expire_date = none;
}

abbrev block : Text → TextBlock
block t = record { text = t; heading_path = t ∷ []; metadata = no_metadata }
