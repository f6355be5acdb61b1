-- ===== src/Retrieval/Rewrite.antt =====
-- rag/query_rewriter.py: the variants of a query. `str.strip` and the language model are arguments.
use Prim.Native.Char.{code}
use Prim.Native.String.{◌++◌ as ◌<>◌}
use water_info.Base.{
  ◌≡◌, refl, ℕ, zero, suc, ◌-◌, ◌≤◌, ◌<◌, String, Bool, true, false, not, ◌&&◌, Option, none, some,
  List, [], ◌∷◌, ◌++◌, map, take, keep, get_elem?, length, length-take-le, any, All, ◌==◌, ==_refl,
  string_eq, if◌then◌else◌, ltb, nat_beq, arith, Bool-cases, inl, inr,
}
use water_info.Retrieval.Rows.{seen_in, differs}
use water_info.Routing.Text.{starts_with, contains}

unfoldable pub rest_of : String → String
rest_of String.[] = String.[]
rest_of (String.◌∷◌ c text) = text

-- `text.replace(term, synonym)` for a term that is not empty. `pending` is the rest of an occurrence
-- that is being left out.
unfoldable pub replace_from : String → String → String → String → String
unfolding starts_with rest_of
replace_from term synonym pending String.[] = String.[]
replace_from term synonym (String.◌∷◌ p pending) (String.◌∷◌ c text) =
    replace_from term synonym pending text
replace_from term synonym String.[] (String.◌∷◌ c text) =
    let found = starts_with (String.◌∷◌ c text) term in
    let rest = replace_from term synonym (if found then rest_of term else String.[]) text in
    if found then synonym <> rest else String.◌∷◌ c rest

unfoldable pub domain_synonyms : List (String × List String)
domain_synonyms =
    ("防汛", "防洪" ∷ "抗洪" ∷ "防涝" ∷ [])
    ∷ ("水位", "水位线" ∷ "水面高度" ∷ "水位高程" ∷ [])
    ∷ ("警戒", "预警" ∷ "警报" ∷ "告警" ∷ [])
    ∷ ("Ⅳ级", "四级" ∷ "4级" ∷ [])
    ∷ ("Ⅲ级", "三级" ∷ "3级" ∷ [])
    ∷ ("Ⅱ级", "二级" ∷ "2级" ∷ [])
    ∷ ("Ⅰ级", "一级" ∷ "1级" ∷ [])
    ∷ ("响应", "应急响应" ∷ "响应行动" ∷ [])
    ∷ ("水库", "库区" ∷ "蓄水区" ∷ [])
    ∷ ("堤防", "堤坝" ∷ "防洪堤" ∷ [])
    ∷ ("泵站", "排水站" ∷ "抽水站" ∷ [])
    ∷ ("流量", "径流量" ∷ "水流速" ∷ [])
    ∷ ("降雨", "降水" ∷ "下雨" ∷ [])
    ∷ ("预警", "警报" ∷ "告警" ∷ "警戒" ∷ [])
    ∷ []

-- the loops of `_generate_keyword_variants`
unfoldable pub variants_of : String → List (String × List String) → List String
unfolding contains replace_from
variants_of query [] = []
variants_of query ((term, synonyms) ∷ terms) =
    let rest = variants_of query terms in
    if contains query term
    then map (λ synonym. replace_from term synonym "" query) synonyms ++ rest
    else rest

unfoldable pub generate_keyword_variants : String → List String
unfolding variants_of domain_synonyms
generate_keyword_variants query = take 2 (variants_of query domain_synonyms)

unfoldable pub cons_head : String → List String → List String
cons_head c [] = c ∷ []
cons_head c (l ∷ lines) = (c <> l) ∷ lines

-- `content.split("\n")`
unfoldable pub split_lines : String → List String
unfolding cons_head
split_lines String.[] = "" ∷ []
split_lines (String.◌∷◌ c text) =
    let rest = split_lines text in
    if nat_beq (code c) 10 then "" ∷ rest else cons_head (String.◌∷◌ c String.[]) rest

-- `get_llm()`: the content of its answer to a prompt for a query and a number of variants, none when
-- the call raises.
pub record Rewriter : Type 0 where
  pub is_enabled : Bool
  pub ainvoke : String → ℕ → Option String

-- No text twice.
abbrev pub Distinct : List String → Type 0
Distinct [] = Unit
Distinct (q ∷ qs) = All (λ p. (p == q) ≡ false) qs × Distinct qs

module _ (strip : String → String) where
  unfoldable pub variants_in : ℕ → Option String → List String
  unfolding split_lines keep
  variants_in n none = []
  variants_in n (some content) =
      take n (keep (λ line. not (line == "")) (map strip (split_lines (strip content))))

  unfoldable pub llm_rewrite : Rewriter → String → ℕ → List String
  unfolding variants_in
  llm_rewrite llm query n = variants_in n (llm.ainvoke query n)

  -- the loop over `queries`
  unfoldable pub unique_from : List String → List String → List String
  unfolding seen_in
  unique_from seen [] = []
  unique_from seen (q ∷ qs) =
      let text = strip q in
      let is_new = not (text == "") && not (seen_in seen text) in
      let rest = unique_from (if is_new then text ∷ seen else seen) qs in
      if is_new then text ∷ rest else rest

  unfoldable pub rewrite_query : Rewriter → String → ℕ → List String
  unfolding generate_keyword_variants llm_rewrite unique_from
  rewrite_query llm query max_variants =
      let queries = query ∷ generate_keyword_variants query in
      let more = ltb (length queries) max_variants && llm.is_enabled in
      take max_variants (
        unique_from [] (
          if more
          then queries ++ llm_rewrite llm query (max_variants - length queries)
          else queries))

  none_again :
      (seen : List String) (text : String) (qs : List String)
      → seen_in seen text ≡ true
      → All (λ p. (p == text) ≡ false) (unique_from seen qs)
  unfolding unique_from seen_in any
  none_again seen text [] h = tt
  none_again seen text (q ∷ qs) h =
      let new = strip q in
      elim (Bool-cases (not (new == "") && not (seen_in seen new))) [
        | inr left ↦ rw left (none_again seen text qs h)
        | inl taken ↦
            let apart = differs seen text new h (ground (arith, taken)) in
            rw taken (apart, none_again (new ∷ seen) text qs (rw (seen_in, any, apart) h))
      ]

  unique_from-Distinct :
      (seen : List String) (qs : List String)
      → Distinct (unique_from seen qs) × All (λ q. (q == "") ≡ false) (unique_from seen qs)
  unfolding unique_from
  unique_from-Distinct seen [] = (tt, tt)
  unique_from-Distinct seen (q ∷ qs) =
      let new = strip q in
      elim (Bool-cases (not (new == "") && not (seen_in seen new))) [
        | inr left ↦ rw left (unique_from-Distinct seen qs)
        | inl taken ↦
            let (distinct, full) = unique_from-Distinct (new ∷ seen) qs in
            let noted : seen_in (new ∷ seen) new ≡ true = rw (seen_in, any, ==_refl new) refl in
            let is_full : (new == "") ≡ false = ground (arith, taken) in
            rw taken ((none_again (new ∷ seen) new qs noted, distinct), (is_full, full))
      ]

All-take : (P : String → Type 0) (n : ℕ) (qs : List String) → All P qs → All P (take n qs)
All-take P zero qs h = tt
All-take P (suc n) [] h = tt
All-take P (suc n) (q ∷ qs) h = (h.0, All-take P n qs h.1)

Distinct-take : (n : ℕ) (qs : List String) → Distinct qs → Distinct (take n qs)
Distinct-take zero qs h = tt
Distinct-take (suc n) [] h = tt
Distinct-take (suc n) (q ∷ qs) h = (All-take _ n qs h.0, Distinct-take n qs h.1)

-- What a search needs of the variants of a query.
pub record IsRewriting (text : String) (max_variants : ℕ) (queries : List String) : Type 0 where
  pub first : get_elem? queries 0 ≡ some text
  pub distinct : Distinct queries
  pub not_blank : All (λ q. (q == "") ≡ false) queries
  pub bounded : length queries ≤ max_variants

take-unique_from :
    (strip : String → String) (query : String) (rest : List String) (n : ℕ)
    → (strip query == "") ≡ false
    → 0 < n
    → IsRewriting (strip query) n (take n (unique_from strip [] (query ∷ rest)))
unfolding unique_from seen_in any
take-unique_from strip query rest zero h pos = ground (arith, pos)
take-unique_from strip query rest (suc n) h pos =
    let (distinct, full) = unique_from-Distinct strip [] (query ∷ rest) in
    record {
      first = rw h refl;
      distinct = Distinct-take (suc n) _ distinct;
      not_blank = All-take _ (suc n) _ full;
      bounded = length-take-le (suc n) _;
    }

-- The rewriting of a query that is not blank, for a maximum that is not 0: the stripped query comes
-- first, no text comes twice, none is blank, and there are no more than the maximum, whatever the
-- language model answers.
pub rewrite_query-IsRewriting :
    (strip : String → String) (llm : Rewriter) (query : String) (max_variants : ℕ)
    → (strip query == "") ≡ false
    → 0 < max_variants
    → IsRewriting (strip query) max_variants (rewrite_query strip llm query max_variants)
unfolding rewrite_query
rewrite_query-IsRewriting strip llm query n h pos =
    let keywords = generate_keyword_variants query in
    let more = ltb (length (query ∷ keywords)) n && llm.is_enabled in
    elim (Bool-cases more) [
      | inl model ↦ rw model (take-unique_from strip query (keywords ++ _) n h pos)
      | inr alone ↦ rw alone (take-unique_from strip query keywords n h pos)
    ]
