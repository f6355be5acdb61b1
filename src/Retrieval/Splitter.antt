-- ===== src/Retrieval/Splitter.antt =====
-- rag/splitter.py: `_split_long_text` and `split_loaded_document`. A text is the list of its code
-- points. The encoder of tiktoken, `str.strip` and the regular expression for sentences are the
-- record `Texts`; the text for the keyword index is left out of a chunk.
pub mod Chunks
use Prim.Native.Nat.{◌/◌}
use water_info.Base.{
  ◌≡◌, refl, sym, ap, ◌∙◌, ℕ, zero, suc, ◌+◌, ◌*◌, ◌≤◌, Bool, true, false, not, ◌&&◌, ◌||◌, Option,
  none, some, List, [], ◌∷◌, ◌++◌, map, length, take, drop, last_of, keep, if◌then◌else◌, leb, ltb,
  All, arith, Bool-cases, inl, inr,
}
use water_info.Retrieval.Filter.{Metadata}

abbrev pub Text : Type 0
Text = List ℕ

-- `encode` and `decode` of an encoder; the stripped sentences that are not empty.
pub record Texts : Type 0 where
  pub encoder : Option ((Text → List ℕ) × (List ℕ → Text))
  pub strip : Text → Text
  pub sentences : Text → List Text

pub record TextBlock : Type 0 where
  pub text : Text
  pub heading_path : List Text
  pub metadata : Metadata

-- `ChunkCandidate`
pub record Chunk : Type 0 where
  pub chunk_index : ℕ
  pub content : Text
  pub token_count : ℕ
  pub heading_path : List Text
  pub metadata : Metadata

unfoldable pub is_blank : Text → Bool
is_blank [] = true
is_blank (c ∷ text) = false

unfoldable pub maximum : ℕ → ℕ → ℕ
maximum a b = if leb a b then b else a

-- The slices of a width. As many as there are characters are enough.
unfoldable pub slices : ℕ → ℕ → Text → List Text
unfolding drop
slices zero width text = []
slices (suc fuel) width [] = []
slices (suc fuel) width (c ∷ text) =
    take width (c ∷ text) ∷ slices fuel width (drop width (c ∷ text))

-- `"\n\n".join(...)`
unfoldable pub join : List Text → Text
join [] = []
join (t ∷ []) = t
join (t ∷ u ∷ ts) = t ++ 10 ∷ 10 ∷ join (u ∷ ts)

module _ (tx : Texts) where
  unfoldable pub count_tokens : Text → ℕ
  unfolding maximum
  count_tokens text = elim tx.encoder [
    | some e ↦ length (e.0 text)
    | none ↦ maximum 1 (length text / 3)
  ]

  unfoldable pub tail_overlap : ℕ → Text → Text
  unfolding last_of is_blank
  tail_overlap overlap_tokens text = if leb overlap_tokens 0 then [] else elim tx.encoder [
    | some e ↦ if is_blank (e.0 text) then [] else e.1 (last_of overlap_tokens (e.0 text))
    | none ↦ last_of (overlap_tokens * 3) text
  ]

  -- The loop over the sentences: the parts that are closed, and the one that grows.
  unfoldable pub gather : ℕ → Text → List Text → List Text
  unfolding is_blank count_tokens
  gather target current [] = if is_blank (tx.strip current) then [] else tx.strip current ∷ []
  gather target current (s ∷ sentences) =
      let candidate = tx.strip (current ++ 32 ∷ s) in
      let closes = not (is_blank current) && ltb target (count_tokens candidate) in
      let rest = gather target (if closes then s else candidate) sentences in
      if closes then tx.strip current ∷ rest else rest

  unfoldable pub split_stripped : ℕ → Text → List Text
  unfolding is_blank count_tokens slices maximum gather
  split_stripped target text =
      let sentences = tx.sentences text in
      if is_blank text
      then []
      else if leb (count_tokens text) target
      then text ∷ []
      else if leb (length sentences) 1
      then slices (length text) (maximum (target * 3) 300) text
      else gather target [] sentences

  unfoldable pub split_long_text : ℕ → Text → List Text
  unfolding split_stripped
  split_long_text target text = split_stripped target (tx.strip text)

  -- The variables of `split_loaded_document`.
  pub record Split : Type 0 where
    pub chunks : List Chunk
    pub current_parts : List Text
    pub current_tokens : ℕ
    pub current_heading : List Text
    pub current_metadata : Metadata

  unfoldable pub no_parts : List Text → Bool
  no_parts [] = true
  no_parts (t ∷ ts) = false

  unfoldable pub content_of : List Text → Text
  unfolding join keep is_blank
  content_of parts = tx.strip (join (keep (λ t. not (is_blank t)) (map tx.strip parts)))

  module _ (target_tokens overlap_tokens : ℕ) (no_metadata : Metadata) where
    unfoldable pub flush : Split → Split
    unfolding content_of is_blank count_tokens tail_overlap
    flush st =
        let content = content_of st.current_parts in
        let overlap = tail_overlap overlap_tokens content in
        if is_blank content
        then record st {
          current_parts = [];
          current_tokens = 0;
          current_heading = [];
          current_metadata = no_metadata;
        }
        else record st {
          chunks =
              st.chunks
              ++ record {
                chunk_index = length st.chunks;
                content = content;
                token_count = count_tokens content;
                heading_path = st.current_heading;
                metadata = st.current_metadata;
              }
                ∷ [];
          current_parts = if is_blank overlap then [] else overlap ∷ [];
          current_tokens = if is_blank overlap then 0 else count_tokens overlap;
        }

    -- Heading and metadata are the block's only when there are no parts.
    unfoldable pub add_segment : TextBlock → Text → Split → Split
    unfolding no_parts count_tokens
    add_segment block segment st =
        let empty = no_parts st.current_parts in
        record st {
          current_heading = if empty then block.heading_path else st.current_heading;
          current_metadata = if empty then block.metadata else st.current_metadata;
          current_parts = st.current_parts ++ segment ∷ [];
          current_tokens = st.current_tokens + count_tokens segment;
        }

    unfoldable pub take_segment : TextBlock → Text → Split → Split
    unfolding no_parts count_tokens flush add_segment
    take_segment block segment st =
        let full =
          not (no_parts st.current_parts)
          && ltb target_tokens (st.current_tokens + count_tokens segment) in
        add_segment block segment (if full then flush st else st)

    unfoldable pub take_segments : TextBlock → List Text → Split → Split
    unfolding take_segment
    take_segments block [] st = st
    take_segments block (s ∷ segments) st = take_segments block segments (take_segment block s st)

    unfoldable pub take_blocks : List TextBlock → Split → Split
    unfolding take_segments split_long_text
    take_blocks [] st = st
    take_blocks (b ∷ blocks) st =
        take_blocks blocks (take_segments b (split_long_text target_tokens b.text) st)

    unfoldable pub start : Split
    start = record {
      chunks = [];
      current_parts = [];
      current_tokens = 0;
      current_heading = [];
      current_metadata = no_metadata;
    }

    unfoldable pub split_loaded_document : List TextBlock → List Chunk
    unfolding flush take_blocks start
    split_loaded_document blocks = (flush (take_blocks blocks start)).chunks
