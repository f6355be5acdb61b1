-- ===== src/Retrieval/Rerank.antt =====
-- rag/reranker.py: `rerank_results`. The language model and the product of Python's floats are
-- arguments.
use water_info.Base.{
  ◌≡◌, ℕ, ◌≤◌, String, Bool, not, ◌||◌, Option, none, some, List, [], ◌∷◌, map, take, get_elem?,
  length, if◌then◌else◌, leb, arith,
}
use water_info.Base.Int.{ℤ, pos, negsuc}
use water_info.Base.Sort.{sort}
use water_info.Retrieval.Search.{Floats, SearchResult}

-- An item of the answer; `none` for a key that is missing.
pub record Rating (F : Type 0) : Type 0 where
  pub index : Option ℤ
  pub score : Option F

-- `get_llm()`: `ratings` is the answer to a query and its results, none when the call or the reading
-- raises. `adjusted s r` is `s * (r / 5.0)`, and `five` is the score of an item without one.
pub record Rater (fl : Floats) : Type 0 where
  pub is_enabled : Bool
  pub ratings : String → List (SearchResult fl.F) → Option (List (Rating fl.F))
  pub adjusted : fl.F → fl.F → fl.F
  pub five : fl.F

unfoldable pub or_zero : Option ℤ → ℤ
or_zero none = pos 0
or_zero (some i) = i

-- `results[idx]` under `0 <= idx < len(results)`
unfoldable pub at_index {ℓ} : {A : Type ℓ} → List A → ℤ → Option A
at_index xs (pos i) = get_elem? xs i
at_index xs (negsuc i) = none

module _ (fl : Floats) (llm : Rater fl) where
  unfoldable pub or_five : Option fl.F → fl.F
  or_five none = llm.five
  or_five (some s) = s

  unfoldable pub add_rated :
      Option (SearchResult fl.F)
      → fl.F
      → List (fl.F × SearchResult fl.F)
      → List (fl.F × SearchResult fl.F)
  add_rated none s scored = scored
  add_rated (some r) s scored = (llm.adjusted r.score s, r) ∷ scored

  -- `scored_results`
  unfoldable pub apply_scores :
      List (SearchResult fl.F) → List (Rating fl.F) → List (fl.F × SearchResult fl.F)
  unfolding or_zero at_index or_five add_rated
  apply_scores results [] = []
  apply_scores results (item ∷ scores) =
      add_rated (at_index results (or_zero item.index)) (or_five item.score)
        (apply_scores results scores)

  -- The answer's order, or the original one when there is no answer.
  unfoldable pub rated :
      ℕ → List (SearchResult fl.F) → Option (List (Rating fl.F)) → List (SearchResult fl.F)
  unfolding apply_scores sort
  rated top_k results none = take top_k results
  rated top_k results (some scores) =
      map (λ p. p.1)
        (take top_k (sort (λ a b. not (fl.less a.0 b.0)) (apply_scores results scores)))

  unfoldable pub rerank_results :
      Bool → String → List (SearchResult fl.F) → ℕ → List (SearchResult fl.F)
  unfolding rated
  rerank_results rag_reranker_enabled query results top_k =
      if leb (length results) top_k
      then results
      else if not rag_reranker_enabled || not llm.is_enabled
      then take top_k results
      else rated top_k results (llm.ratings query (take 10 results))

  -- No more results than asked for are left as they are.
  pub rerank_results-short :
      (on : Bool) (query : String) (results : List (SearchResult fl.F)) (top_k : ℕ)
      → length results ≤ top_k
      → rerank_results on query results top_k ≡ results
  unfolding rerank_results
  rerank_results-short on query results top_k h = ground (arith, h)
