-- ===== src/Retrieval/Hybrid.antt =====
-- rag/retriever.py: the whole of `hybrid_search`, from the text of a query to its results.
use mathlib.Core.Option.{some-injective}
use water_info.Base.{
  ◌≡◌, refl, sym, ◌∙◌, arith, ℕ, ◌*◌, ◌≤◌, ◌<◌, String, Bool, true, false, not, ◌&&◌, Option, none,
  some, List, [], ◌∷◌, ◌++◌, length, if◌then◌else◌, leb, All, ◌==◌, string_eq, Bool-cases, inl, inr,
}
use water_info.Retrieval.Filter.{MetadataFilter}
use water_info.Retrieval.Rerank.{Rater, rerank_results, rerank_results-short}
use water_info.Retrieval.Rewrite.{Rewriter, rewrite_query}
use water_info.Retrieval.Rows.{Row}
use water_info.Retrieval.Search.{
  Floats, SearchResult, search, of_document, passes, search-IsBounded,
}

-- The embedder, the tokens of the keyword search, and the two searches of the database, for the
-- source types, the model and the filter of one call. `vector_rows` is the embedding of a query and
-- the search near it, for a number of rows; `none` is an exception.
pub record Searches (F : Type 0) : Type 0 where
  pub strip : String → String
  pub embedder_enabled : Bool
  pub vector_rows : String → ℕ → Option (List (Row F))
  pub segment_search_text : String → String
  pub keyword_rows : String → ℕ → Option (List (Row F))

-- `max(top_k * 4, 20)`
unfoldable pub top_n : ℕ → ℕ
top_n top_k = if leb (top_k * 4) 20 then 20 else top_k * 4

unfoldable pub or_empty {ℓ} : {A : Type ℓ} → Option (List A) → List A
or_empty none = []
or_empty (some xs) = xs

-- The rows of a query before those of the next ones; an exception of a keyword search ends the loop.
unfoldable pub add_rows {ℓ} :
    {A : Type ℓ} → List A → Option (List A) → Option (List A × List A) → Option (List A × List A)
add_rows vs none rest = none
add_rows vs (some ks) none = none
add_rows vs (some ks) (some (all_vs, all_ks)) = some (vs ++ all_vs, ks ++ all_ks)

module _ (fl : Floats) (db : Searches fl.F) (rag_min_score : fl.F) (today : ℕ) (f : MetadataFilter)
    (top_k : ℕ) where
  -- An exception of the vector search is passed over.
  unfoldable pub vectors_for : String → List (Row fl.F)
  unfolding or_empty top_n
  vectors_for q = if db.embedder_enabled then or_empty (db.vector_rows q (top_n top_k)) else []

  unfoldable pub keywords_for : String → Option (List (Row fl.F))
  unfolding top_n
  keywords_for q =
      let tokenized_query = db.segment_search_text q in
      if tokenized_query == "" then some [] else db.keyword_rows tokenized_query (top_n top_k)

  -- `all_vector_rows` and `all_keyword_rows`
  unfoldable pub gather_rows : List String → Option (List (Row fl.F) × List (Row fl.F))
  unfolding vectors_for keywords_for add_rows
  gather_rows [] = some ([], [])
  gather_rows (q ∷ queries) = add_rows (vectors_for q) (keywords_for q) (gather_rows queries)

  module _ (rater : Rater fl) (rag_reranker_enabled : Bool) where
    -- The results of the gathered rows; without rows there are none.
    unfoldable pub ranked_results :
        String → Option (List (Row fl.F) × List (Row fl.F)) → Option (List (SearchResult fl.F))
    unfolding search rerank_results
    ranked_results query none = none
    ranked_results query (some (vs, ks)) =
        let results = search fl rag_min_score today f top_k vs ks in
        some (
          if rag_reranker_enabled && not (leb (length results) 0)
          then rerank_results fl rater rag_reranker_enabled query results top_k
          else results)

    unfoldable pub hybrid_search : Rewriter → Bool → String → Option (List (SearchResult fl.F))
    unfolding ranked_results rewrite_query gather_rows
    hybrid_search llm enable_query_rewriting text =
        let query = db.strip text in
        if query == ""
        then some []
        else ranked_results query (
            gather_rows
              (if enable_query_rewriting then rewrite_query db.strip llm query 3 else query ∷ []))

  module _ (rater : Rater fl) (query : String) (positive : 0 < top_k) where
    ranked_results-unrated :
        (on : Bool) (o : Option (List (Row fl.F) × List (Row fl.F)))
        → ranked_results rater on query o ≡ ranked_results rater false query o
    unfolding ranked_results
    ranked_results-unrated on none = refl
    ranked_results-unrated on (some (vs, ks)) =
        let results = search fl rag_min_score today f top_k vs ks in
        let few = (search-IsBounded fl rag_min_score today f top_k vs ks "" positive).0 in
        elim (Bool-cases (on && not (leb (length results) 0))) [
          | inl ranks ↦ rw (ranks, rerank_results-short fl rater on query results top_k few) refl
          | inr plain ↦ rw plain refl
        ]

    ranked_results-IsBounded :
        (o : Option (List (Row fl.F) × List (Row fl.F))) (results : List (SearchResult fl.F))
        (d : String)
        → ranked_results rater false query o ≡ some results
        → (length results ≤ top_k)
          × (of_document fl rag_min_score today f top_k d results ≤ 3)
          × All (λ r. passes fl rag_min_score today f top_k r ≡ true) results
    unfolding ranked_results
    ranked_results-IsBounded none results d h = cc
    ranked_results-IsBounded (some (vs, ks)) results d h =
        rw (← some-injective _ _ h)
          (search-IsBounded fl rag_min_score today f top_k vs ks d positive)

  -- Whatever its settings and its model, the reranker changes no result of a search: it reranks only
  -- more results than `top_k`, which is not 0, and the search never has more.
  pub hybrid_search-eq_unrated :
      (rater : Rater fl) (on : Bool) (llm : Rewriter) (enable_query_rewriting : Bool)
      (text : String)
      → 0 < top_k
      → hybrid_search rater on llm enable_query_rewriting text
        ≡ hybrid_search rater false llm enable_query_rewriting text
  unfolding hybrid_search
  hybrid_search-eq_unrated rater on llm en text positive =
      let query = db.strip text in
      elim (Bool-cases (query == "")) [
        | inl blank ↦ rw blank refl
        | inr full ↦ rw full (ranked_results-unrated rater query positive on _)
      ]

  -- The results of a query, from its text on, are at most `top_k`, which is not 0, and at most 3 of
  -- a document, and each of them passes the filter of the metadata and the bound for its score.
  pub hybrid_search-IsBounded :
      (rater : Rater fl) (on : Bool) (llm : Rewriter) (enable_query_rewriting : Bool)
      (text : String) (results : List (SearchResult fl.F)) (d : String)
      → 0 < top_k
      → hybrid_search rater on llm enable_query_rewriting text ≡ some results
      → (length results ≤ top_k)
        × (of_document fl rag_min_score today f top_k d results ≤ 3)
        × All (λ r. passes fl rag_min_score today f top_k r ≡ true) results
  unfolding hybrid_search of_document
  hybrid_search-IsBounded rater on llm en text results d positive h =
      let query = db.strip text in
      elim (Bool-cases (query == "")) [
        | inl blank ↦ rw (← some-injective _ _ (rw blank at h)) (omega arith, omega arith, tt)
        | inr full ↦
            ranked_results-IsBounded rater query positive _ results d
              (sym (ranked_results-unrated rater query positive on _) ∙ rw full at h)
      ]
