-- ===== src/Examples/Retrieval.antt =====
-- Searches and sessions over concrete data.
use Prim.Native.Char.{code}
use Prim.Native.String.{◌++◌ as ◌<>◌}
use water_info.Base.{
  ℕ, ◌+◌, ◌*◌, ◌≤◌, ◌≡◌, refl, ap, String, true, false, none, some, List, [], ◌∷◌, ◌++◌, All, find,
  length, last_of, ltb, nat_beq, if◌then◌else◌, ◌==◌, string_eq, ==_refl, drop, ◌-◌, arith,
}
use water_info.Platform.Session.{
  Turn, Redis, IsRedis, get_history, save_turns, get_history-save_turns, max_records,
}
use water_info.Retrieval.Filter.{Metadata, MetadataFilter}
use water_info.Retrieval.Hybrid.{Searches, hybrid_search, hybrid_search-eq_unrated}
use water_info.Retrieval.Rerank.{Rater}
use water_info.Retrieval.Rewrite.{Rewriter, IsRewriting, rewrite_query, rewrite_query-IsRewriting}
use water_info.Retrieval.Rows.{Row, is_chunk, deduplicate_rows, IsUnique, deduplicate_rows-IsUnique}
use water_info.Retrieval.Search.{Floats, search, passes, of_document, search-IsBounded}

-- Scores as whole numbers.
abbrev floats : Floats
floats = record {
  F = ℕ;
  zero_score = 0;
  plus = λ a b. a + b;
  reciprocal = λ n. 1;
  less = λ a b. ltb a b;
  is_truthy = λ a. ltb 0 a;
}

abbrev no_metadata : Metadata
no_metadata = record {
  doc_type = none;
  basin_code = none;
  station_id = none;
  authority_level = none;
  risk_level_applicable = none;
  region_code = none;
  effective_date = none;
  expire_date = none;
}

abbrev no_filter : MetadataFilter
no_filter = record { wanted = no_metadata; include_expired = false }

abbrev row : String → Row ℕ
row id = record {
  chunk_id = id;
  document_id = "d1";
  document_title = "manual";
  source_uri = none;
  content = some "text";
  vector_score = some 5;
  keyword_score = none;
  metadata = no_metadata;
}

abbrev rows : List (Row ℕ)
rows = row "c1" ∷ row "c2" ∷ row "c1" ∷ []

search-IsBounded_example :
    let results = search floats 1 9 no_filter 2 rows (row "c3" ∷ []) in
    (length results ≤ 2)
    × (of_document floats 1 9 no_filter 2 "d1" results ≤ 3)
    × All (λ r. passes floats 1 9 no_filter 2 r ≡ true) results
search-IsBounded_example =
    search-IsBounded floats 1 9 no_filter 2 rows (row "c3" ∷ []) "d1" (omega arith)

deduplicate_rows-IsUnique_example :
    IsUnique (deduplicate_rows rows)
    × ((id : String) → find (is_chunk id) (deduplicate_rows rows) ≡ find (is_chunk id) rows)
deduplicate_rows-IsUnique_example = deduplicate_rows-IsUnique rows

-- A text for a turn: each character of the role after an "a", then a "b", then the content.
abbrev write : String → String → String
write String.[] content = String.◌∷◌ "b" content
write (String.◌∷◌ c role) content = String.◌∷◌ "a" (String.◌∷◌ c (write role content))

abbrev read : String → Turn
read String.[] = record { role = ""; content = "" }
read (String.◌∷◌ x String.[]) = record { role = ""; content = "" }
read (String.◌∷◌ x (String.◌∷◌ c rest)) =
    let t = read rest in
    if nat_beq (code x) 98
    then record { role = ""; content = String.◌∷◌ c rest }
    else record { role = String.◌∷◌ c t.role; content = t.content }

read-write :
    (role content : String) → read (write role content) ≡ record { role = role; content = content }
read-write String.[] String.[] = refl
read-write String.[] (String.◌∷◌ c s) = refl
read-write (String.◌∷◌ c role) content =
    ap (λ t. record { role = String.◌∷◌ c t.role; content = t.content }) (read-write role content)

-- A store is the list at each key.
abbrev lists : Redis
lists = record {
  Store = String → List String;
  rpush = λ key item s k. if k == key then s k ++ item ∷ [] else s k;
  ltrim_last = λ key n s k. if k == key then drop (length (s k) - n) (s k) else s k;
  lrange_all = λ key s. s key;
  dumps = λ t. write t.role t.content;
  loads = read;
}

lists-IsRedis : IsRedis lists
lists-IsRedis = record {
  pushed = λ key item s. rw (==_refl key) refl;
  trimmed = λ key n s. rw (==_refl key) refl;
  reads_back = λ t. read-write t.role t.content;
}

abbrev turns : List Turn
turns =
    record { role = "user"; content = "水位" } ∷ record { role = "assistant"; content = "正常" } ∷ []

get_history-save_turns_example :
    get_history lists "s1" (save_turns lists "s1" turns (λ k. [])) ≡ last_of max_records turns
unfolding get_history
get_history-save_turns_example =
    get_history-save_turns lists lists-IsRedis "s1" turns (λ k. []) (omega arith)

-- A model that answers with two lines, the first the query again.
abbrev rewriter : Rewriter
rewriter = record { is_enabled = true; ainvoke = λ query n. some (query <> "\n当前汛情") }

rewrite_query-IsRewriting_example : IsRewriting "流域汛情" 3 (rewrite_query (λ s. s) rewriter "流域汛情" 3)
rewrite_query-IsRewriting_example =
    rewrite_query-IsRewriting (λ s. s) rewriter "流域汛情" 3 refl (omega arith)

two_variants : rewrite_query (λ s. s) rewriter "流域汛情" 3 ≡ "流域汛情" ∷ "当前汛情" ∷ []
unfolding rewrite_query
two_variants = refl

by_keywords : rewrite_query (λ s. s) rewriter "水位警戒" 3 ≡ "水位警戒" ∷ "水位线警戒" ∷ "水面高度警戒" ∷ []
unfolding rewrite_query
by_keywords = refl

-- Both searches find rows, and the model would drop every result.
abbrev searches : Searches ℕ
searches = record {
  strip = λ s. s;
  embedder_enabled = true;
  vector_rows = λ q n. some rows;
  segment_search_text = λ s. s;
  keyword_rows = λ q n. some (row "c3" ∷ []);
}

abbrev rater : Rater floats
rater = record {
  is_enabled = true;
  ratings = λ query results. some [];
  adjusted = λ s r. s * r;
  five = 5;
}

hybrid_search-eq_unrated_example :
    hybrid_search floats searches 1 9 no_filter 2 rater true rewriter true "水位"
    ≡ hybrid_search floats searches 1 9 no_filter 2 rater false rewriter true "水位"
hybrid_search-eq_unrated_example =
    hybrid_search-eq_unrated floats searches 1 9 no_filter 2 rater true rewriter true "水位"
      (omega arith)
