-- ===== src/Retrieval/Splitter/Chunks.antt =====
-- rag/splitter.py: the chunks of a document, and the heading that they carry.
use water_info.Base.{◌≡◌, refl, ℕ, suc, ◌+◌, false, List, [], ◌∷◌, ltb, Bool-cases, inl, inr}
use water_info.Retrieval.Filter.{Metadata}
use water_info.Retrieval.Splitter.{
  Text, Texts, TextBlock, Chunk, is_blank, count_tokens, tail_overlap, Split, no_parts, content_of,
  flush, add_segment, take_segment,
}

module _ (tx : Texts) where
  -- Chunks that are numbered from n, have a text, and count its tokens.
  abbrev pub IsNumbered : ℕ → List Chunk → Type 0
  IsNumbered n [] = Unit
  IsNumbered n (c ∷ cs) =
      ((c.chunk_index ≡ n)
        × (is_blank c.content ≡ false)
        × (c.token_count ≡ count_tokens tx c.content))
      × IsNumbered (suc n) cs

  module _ (target_tokens overlap_tokens : ℕ) (no_metadata : Metadata) where
    -- A segment that starts a new chunk, of whatever block, gets the heading and the metadata of the
    -- chunk before it, when that chunk has a text and leaves an overlap.
    pub take_segment-keeps_heading :
        (b : TextBlock) (segment : Text) (st : Split tx)
        → no_parts tx st.current_parts ≡ false
        → is_blank (content_of tx st.current_parts) ≡ false
        → is_blank (tail_overlap tx overlap_tokens (content_of tx st.current_parts)) ≡ false
        → let after = take_segment tx target_tokens overlap_tokens no_metadata b segment st in
          (after.current_heading ≡ st.current_heading)
          × (after.current_metadata ≡ st.current_metadata)
    unfolding take_segment add_segment flush no_parts
    take_segment-keeps_heading b segment st some_parts text overlaps =
        elim (Bool-cases (ltb target_tokens (st.current_tokens + count_tokens tx segment))) [
          | inl full ↦ rw (some_parts, full, text, overlaps) (refl, refl)
          | inr fits ↦ rw (some_parts, fits) (rw some_parts (refl, refl))
        ]
