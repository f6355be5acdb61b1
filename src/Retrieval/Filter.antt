-- ===== src/Retrieval/Filter.antt =====
-- rag/models.py: `metadata_matches_filter`. A date is its ordinal, none where `_parse_date` returns
-- None; `today` is `date.today()`.
use water_info.Base.{
  ◌≡◌, ℕ, String, Bool, true, false, not, ◌&&◌, Option, none, some, ◌==◌, string_eq, if◌then◌else◌,
  ltb, Bool-cases, inl, inr,
}

-- What the filter reads of a document's metadata.
pub record Metadata : Type 0 where
  pub doc_type : Option String
  pub basin_code : Option String
  pub station_id : Option String
  pub authority_level : Option String
  pub risk_level_applicable : Option String
  pub region_code : Option String
  pub effective_date : Option ℕ
  pub expire_date : Option ℕ

pub record MetadataFilter : Type 0 where
  pub wanted : Metadata
  pub include_expired : Bool

unfoldable pub or_blank : Option String → String
or_blank none = ""
or_blank (some s) = s

-- The test of one key in the loop: what is expected is what is there.
unfoldable pub fits : Option String → Option String → Bool
unfolding or_blank
fits none value = true
fits (some expected) value = or_blank value == expected

-- A document without a region passes.
unfoldable pub region_fits : Option String → Option String → Bool
unfolding or_blank
region_fits none value = true
region_fits (some wanted) value = if or_blank value == "" then true else or_blank value == wanted

-- Whether the first date is known and before the second, if that is known.
unfoldable pub is_before : Option ℕ → Option ℕ → Bool
is_before none b = false
is_before (some a) none = false
is_before (some a) (some b) = ltb a b

unfoldable pub metadata_matches_filter : ℕ → MetadataFilter → Metadata → Bool
unfolding fits region_fits is_before
metadata_matches_filter today f m =
    let w = f.wanted in
    if is_before m.expire_date (some today) && not f.include_expired
    then false
    else if not (
        fits w.doc_type m.doc_type
        && fits w.basin_code m.basin_code
        && fits w.station_id m.station_id
        && fits w.authority_level m.authority_level
        && fits w.risk_level_applicable m.risk_level_applicable)
    then false
    else if not (region_fits w.region_code m.region_code)
    then false
    else if is_before w.effective_date m.effective_date
    then false
    else not (is_before m.expire_date w.expire_date)

-- A document that has expired does not match, unless the filter includes expired ones.
pub metadata_matches_filter-expired :
    (today : ℕ) (f : MetadataFilter) (m : Metadata)
    → f.include_expired ≡ false
    → metadata_matches_filter today f m ≡ true
    → is_before m.expire_date (some today) ≡ false
unfolding metadata_matches_filter
metadata_matches_filter-expired today f m strict h =
    elim (Bool-cases (is_before m.expire_date (some today))) [
      | inl expired ↦ cc (rw (expired, strict) at h)
      | inr valid ↦ valid
    ]
