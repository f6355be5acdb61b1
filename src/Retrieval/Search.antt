-- ===== src/Retrieval/Search.antt =====
-- rag/retriever.py: `hybrid_search`, from the rows of its queries to its results: fusion of the two
-- rankings, order, and selection. Python's floats are the record `Floats`.
use water_info.Base.{
  ◌≡◌, ap, ℕ, suc, ◌+◌, ◌≤◌, ◌<◌, String, Bool, true, false, not, ◌&&◌, Option, none, some, List,
  [], ◌∷◌, length, ◌==◌, string_eq, eq_of_==, if◌then◌else◌, leb, All, arith, Bool-cases, inl, inr,
}
use water_info.Base.Sort.{sort}
use water_info.Retrieval.Filter.{Metadata, MetadataFilter, metadata_matches_filter}
use water_info.Retrieval.Rows.{Row, merge_row, deduplicate_rows}

-- Addition, `1 / n`, order, and truth (false for 0.0).
pub record Floats : Type 1 where
  pub F : Type 0
  pub zero_score : F
  pub plus : F → F → F
  pub reciprocal : ℕ → F
  pub less : F → F → Bool
  pub is_truthy : F → Bool

-- `vector_score or keyword_score or fusion`: the first that is neither None nor 0.0, or the last.
unfoldable pub or_score : (fl : Floats) → Option fl.F → fl.F → fl.F
or_score fl none rest = rest
or_score fl (some s) rest = if fl.is_truthy s then s else rest

unfoldable pub is_some {ℓ} : {A : Type ℓ} → Option A → Bool
is_some none = false
is_some (some a) = true

-- `SearchResult`
pub record SearchResult (F : Type 0) : Type 0 where
  pub chunk_id : String
  pub document_id : String
  pub score : F
  pub vector_score : Option F
  pub metadata : Metadata

module _ (fl : Floats) where
  -- `scored` and `fusion_scores`: a row and a score for each chunk, in order of insertion.
  unfoldable pub upsert : Row fl.F → fl.F → List (Row fl.F × fl.F) → List (Row fl.F × fl.F)
  unfolding merge_row
  upsert row s [] = (merge_row none row, fl.plus fl.zero_score s) ∷ []
  upsert row s ((old, t) ∷ scored) =
      let rest = upsert row s scored in
      if old.chunk_id == row.chunk_id
      then (merge_row (some old) row, fl.plus t s) ∷ scored
      else (old, t) ∷ rest

  -- one of the two loops over ranked rows
  unfoldable pub fuse : ℕ → List (Row fl.F) → List (Row fl.F × fl.F) → List (Row fl.F × fl.F)
  unfolding upsert
  fuse rank [] scored = scored
  fuse rank (row ∷ rows) scored =
      fuse (rank + 1) rows (upsert row (fl.reciprocal (60 + rank)) scored)

  -- The three parts of the sort key, one after the other; the greater comes first.
  unfoldable pub before : List fl.F → List fl.F → Bool
  before [] ys = true
  before (x ∷ xs) [] = true
  before (x ∷ xs) (y ∷ ys) =
      let rest = before xs ys in if fl.less y x then true else if fl.less x y then false else rest

  unfoldable pub sort_key : Row fl.F × fl.F → List fl.F
  unfolding or_score
  sort_key (row, fusion) =
      fusion
      ∷ or_score fl row.vector_score fl.zero_score
      ∷ or_score fl row.keyword_score fl.zero_score
      ∷ []

  unfoldable pub rank_rows : List (Row fl.F) → List (Row fl.F) → List (Row fl.F × fl.F)
  unfolding fuse sort before sort_key
  rank_rows vector_rows keyword_rows =
      sort (λ a b. before (sort_key a) (sort_key b)) (fuse 1 keyword_rows (fuse 1 vector_rows []))

  unfoldable pub effective_score : Row fl.F × fl.F → fl.F
  unfolding or_score
  effective_score (row, fusion) =
      or_score fl row.vector_score (or_score fl row.keyword_score fusion)

  unfoldable pub to_result : Row fl.F × fl.F → SearchResult fl.F
  unfolding effective_score
  to_result (row, fusion) = record {
    chunk_id = row.chunk_id;
    document_id = row.document_id;
    score = effective_score (row, fusion);
    vector_score = row.vector_score;
    metadata = row.metadata;
  }

  -- `per_document` after one more result of a document
  unfoldable pub bump : String → (String → ℕ) → String → ℕ
  bump d per e = if e == d then suc (per e) else per e

  module _ (rag_min_score : fl.F) (today : ℕ) (f : MetadataFilter) (top_k : ℕ) where
    -- The score and the filter let the result pass.
    unfoldable pub passes : SearchResult fl.F → Bool
    unfolding is_some metadata_matches_filter
    passes r =
        not (is_some r.vector_score && fl.less r.score rag_min_score)
        && metadata_matches_filter today f r.metadata

    -- The selection loop. `per` counts the results of a document and `n` all results; the loop ends at
    -- `top_k` of them.
    unfoldable pub select : (String → ℕ) → ℕ → List (Row fl.F × fl.F) → List (SearchResult fl.F)
    unfolding passes to_result bump
    select per n [] = []
    select per n (row ∷ rows) =
        let r = to_result row in
        let taken = not (leb 3 (per r.document_id)) && passes r in
        let rest =
          select (if taken then bump r.document_id per else per) (if taken then suc n else n)
            rows in
        if taken then (if leb top_k (suc n) then r ∷ [] else r ∷ rest) else rest

    -- `hybrid_search` after its queries, without the reranker
    unfoldable pub search : List (Row fl.F) → List (Row fl.F) → List (SearchResult fl.F)
    unfolding deduplicate_rows rank_rows select
    search all_vector_rows all_keyword_rows =
        select (λ d. 0) 0
          (rank_rows (deduplicate_rows all_vector_rows) (deduplicate_rows all_keyword_rows))

    -- Results of a document.
    unfoldable pub of_document : String → List (SearchResult fl.F) → ℕ
    of_document d [] = 0
    of_document d (r ∷ rs) = (if d == r.document_id then 1 else 0) + of_document d rs

    select-length :
        (per : String → ℕ) (n : ℕ) (rows : List (Row fl.F × fl.F))
        → n < top_k
        → n + length (select per n rows) ≤ top_k
    unfolding select
    select-length per n [] h = omega (arith, h)
    select-length per n (row ∷ rows) h =
        let r = to_result row in
        elim (Bool-cases (not (leb 3 (per r.document_id)) && passes r)) [
          | inr left ↦ rw left (select-length per n rows h)
          | inl taken ↦ elim (Bool-cases (leb top_k (suc n))) [
            | inl full ↦ rw (taken, full) (omega (arith, h))
            | inr open_yet ↦
                let rest = select-length (bump r.document_id per) (suc n) rows (ground arith) in
                rw (taken, open_yet) (omega (arith, rest))
          ]
        ]

    bump-eq : (per : String → ℕ) (e d : String) → bump e per d ≡ (if d == e then 1 else 0) + per d
    unfolding bump
    bump-eq per e d = ground arith

    bump-le : (per : String → ℕ) (e d : String) → per e < 3 → per d ≤ 3 → bump e per d ≤ 3
    unfolding bump
    bump-le per e d free h = elim (Bool-cases (d == e)) [
      | inl same ↦ let eq = ap per (eq_of_== d e same) in rw same (omega (arith, eq, free))
      | inr other ↦ rw other h
    ]

    select-of_document :
        (per : String → ℕ) (n : ℕ) (rows : List (Row fl.F × fl.F)) (d : String)
        → per d ≤ 3
        → per d + of_document d (select per n rows) ≤ 3
    unfolding select of_document bump
    select-of_document per n [] d h = omega (arith, h)
    select-of_document per n (row ∷ rows) d h =
        let r = to_result row in
        elim (Bool-cases (not (leb 3 (per r.document_id)) && passes r)) [
          | inr left ↦ rw left (select-of_document per n rows d h)
          | inl taken ↦
              let free : per r.document_id < 3 = ground (arith, taken) in
              let fits = bump-le per r.document_id d free h in
              let adds = bump-eq per r.document_id d in
              let rest = select-of_document (bump r.document_id per) (suc n) rows d fits in
              elim (Bool-cases (leb top_k (suc n))) [
                | inl full ↦ rw (taken, full) (omega (arith, fits, adds))
                | inr open_yet ↦ rw (taken, open_yet) (omega (arith, rest, adds))
              ]
        ]

    select-passes :
        (per : String → ℕ) (n : ℕ) (rows : List (Row fl.F × fl.F))
        → All (λ r. passes r ≡ true) (select per n rows)
    unfolding select
    select-passes per n [] = tt
    select-passes per n (row ∷ rows) =
        let r = to_result row in
        elim (Bool-cases (not (leb 3 (per r.document_id)) && passes r)) [
          | inr left ↦ rw left (select-passes per n rows)
          | inl taken ↦
              let good : passes r ≡ true = ground (arith, taken) in
              let rest = select-passes (bump r.document_id per) (suc n) rows in
              elim (Bool-cases (leb top_k (suc n))) [
                | inl full ↦ rw (taken, full) (good, tt)
                | inr open_yet ↦ rw (taken, open_yet) (good, rest)
              ]
        ]

    -- A search returns at most `top_k` results and at most 3 of a document, and each of them passes the
    -- filter of the metadata and the bound for its score. `top_k` is not 0.
    pub search-IsBounded :
        (all_vector_rows all_keyword_rows : List (Row fl.F)) (d : String)
        → 0 < top_k
        → let results = search all_vector_rows all_keyword_rows in
          (length results ≤ top_k)
          × (of_document d results ≤ 3)
          × All (λ r. passes r ≡ true) results
    unfolding search
    search-IsBounded vs ks d h =
        let ranked = rank_rows (deduplicate_rows vs) (deduplicate_rows ks) in
        (
          omega (arith, select-length (λ e. 0) 0 ranked h),
          omega (arith, select-of_document (λ e. 0) 0 ranked d (omega arith)),
          select-passes (λ e. 0) 0 ranked,
        )
