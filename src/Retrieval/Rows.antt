-- ===== src/Retrieval/Rows.antt =====
-- rag/retriever.py: `_merge_row` and `_deduplicate_rows`. F is Python's float.
use water_info.Base.{
  ◌≡◌, refl, String, Bool, true, false, Option, none, some, List, [], ◌∷◌, ◌==◌, ==_refl, eq_of_==,
  ==_sym, ◌∙◌, string_eq, if◌then◌else◌, any, find, Bool-cases, inl, inr,
}
use water_info.Retrieval.Filter.{Metadata}

-- A row of one of the two searches; a key that is missing or None is `none`.
pub record Row (F : Type 0) : Type 0 where
  pub chunk_id : String
  pub document_id : String
  pub document_title : String
  pub source_uri : Option String
  pub content : Option String
  pub vector_score : Option F
  pub keyword_score : Option F
  pub metadata : Metadata

unfoldable pub newer {ℓ} : {A : Type ℓ} → Option A → Option A → Option A
newer base none = base
newer base (some a) = some a

unfoldable pub seen_in : List String → String → Bool
unfolding any
seen_in seen id = any (λ x. x == id) seen

pub differs :
    (seen : List String) (id chunk : String)
    → seen_in seen id ≡ true
    → seen_in seen chunk ≡ false
    → (chunk == id) ≡ false
differs seen id chunk h k = elim (Bool-cases (chunk == id)) [
  | inr other ↦ other
  | inl same ↦ cc (h, k, eq_of_== chunk id same)
]

module _ {F : Type 0} where
  unfoldable pub merge_row : Option (Row F) → Row F → Row F
  unfolding newer
  merge_row none row = row
  merge_row (some base) row = record {
    chunk_id = row.chunk_id;
    document_id = row.document_id;
    document_title = row.document_title;
    source_uri = newer base.source_uri row.source_uri;
    content = newer base.content row.content;
    vector_score = newer base.vector_score row.vector_score;
    keyword_score = newer base.keyword_score row.keyword_score;
    metadata = row.metadata;
  }

  unfoldable pub is_chunk : String → Row F → Bool
  is_chunk id row = row.chunk_id == id

  -- the loop of `_deduplicate_rows`
  unfoldable pub deduplicate_from : List String → List (Row F) → List (Row F)
  unfolding seen_in
  deduplicate_from seen [] = []
  deduplicate_from seen (row ∷ rows) =
      let known = seen_in seen row.chunk_id in
      let rest = deduplicate_from (if known then seen else row.chunk_id ∷ seen) rows in
      if known then rest else row ∷ rest

  unfoldable pub deduplicate_rows : List (Row F) → List (Row F)
  unfolding deduplicate_from
  deduplicate_rows rows = deduplicate_from [] rows

  -- Each chunk once.
  pub data IsUnique : List (Row F) → Type 0 where
    empty : IsUnique []
    more :
        (row : Row F) (rows : List (Row F))
        → any (is_chunk row.chunk_id) rows ≡ false
        → IsUnique rows
        → IsUnique (row ∷ rows)

  none_seen :
      (id : String) (seen : List String) (rows : List (Row F))
      → seen_in seen id ≡ true
      → any (is_chunk id) (deduplicate_from seen rows) ≡ false
  unfolding deduplicate_from any is_chunk seen_in
  none_seen id seen [] h = refl
  none_seen id seen (row ∷ rows) h = elim (Bool-cases (seen_in seen row.chunk_id)) [
    | inl known ↦ rw known (none_seen id seen rows h)
    | inr fresh ↦
        let apart = differs seen id row.chunk_id h fresh in
        rw (fresh, any, is_chunk, apart)
          (none_seen id (row.chunk_id ∷ seen) rows (rw (seen_in, any, apart) h))
  ]

  deduplicate_from-IsUnique :
      (seen : List String) (rows : List (Row F)) → IsUnique (deduplicate_from seen rows)
  unfolding deduplicate_from
  deduplicate_from-IsUnique seen [] = empty
  deduplicate_from-IsUnique seen (row ∷ rows) = elim (Bool-cases (seen_in seen row.chunk_id)) [
    | inl known ↦ rw known (deduplicate_from-IsUnique seen rows)
    | inr fresh ↦
        let id = row.chunk_id in
        let noted : seen_in (id ∷ seen) id ≡ true = rw (seen_in, any, ==_refl id) refl in
        rw fresh (
          more row _ (none_seen id (id ∷ seen) rows noted)
            (deduplicate_from-IsUnique (id ∷ seen) rows))
  ]

  deduplicate_from-find :
      (seen : List String) (rows : List (Row F)) (id : String)
      → seen_in seen id ≡ false
      → find (is_chunk id) (deduplicate_from seen rows) ≡ find (is_chunk id) rows
  unfolding deduplicate_from find is_chunk
  deduplicate_from-find seen [] id h = refl
  deduplicate_from-find seen (row ∷ rows) id h = elim (Bool-cases (seen_in seen row.chunk_id)) [
    | inl known ↦
        let apart : (row.chunk_id == id) ≡ false =
          ==_sym row.chunk_id id ∙ differs seen row.chunk_id id known h in
        rw (known, apart) (deduplicate_from-find seen rows id h)
    | inr fresh ↦ elim (Bool-cases (row.chunk_id == id)) [
      | inl same ↦ rw (fresh, find, is_chunk, same) refl
      | inr other ↦
          rw (fresh, find, is_chunk, other)
            (deduplicate_from-find (row.chunk_id ∷ seen) rows id (rw (seen_in, any, other) h))
    ]
  ]

  -- Deduplication leaves each chunk once, and for every chunk the row that came first.
  pub deduplicate_rows-IsUnique :
      (rows : List (Row F))
      → IsUnique (deduplicate_rows rows)
        × ((id : String) → find (is_chunk id) (deduplicate_rows rows) ≡ find (is_chunk id) rows)
  unfolding deduplicate_rows seen_in any
  deduplicate_rows-IsUnique rows =
      (deduplicate_from-IsUnique [] rows, λ id. deduplicate_from-find [] rows id refl)
