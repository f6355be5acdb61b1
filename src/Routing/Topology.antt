-- ===== src/Routing/Topology.antt =====
-- agents/_topology.py: which profile applies to a request.
use water_info.Base.{
  ℕ, ◌≤◌, String, ◌≡◌, Bool, true, List, [], ◌∷◌, ◌==◌, string_eq, if◌then◌else◌, arith,
}

pub data Profile : Type 0 where
  critical_response_with_review data_only_fast_path general_chat_fast_path default : Profile

unfoldable pub priority : Profile → ℕ
priority critical_response_with_review = 900
priority data_only_fast_path = 200
priority general_chat_fast_path = 100
priority default = 0

-- What the profiles read of a request. `data_only` is the truth of `answer_policy.get("data_only")`.
pub record Request : Type 0 where
  pub intent : String
  pub safety_level : String
  pub data_only : Bool

-- Whether `matches` returns a match.
unfoldable pub matches : Profile → Request → Bool
matches critical_response_with_review r = r.safety_level == "critical"
matches data_only_fast_path r = r.data_only
matches general_chat_fast_path r = r.intent == "general_chat"
matches default r = true

-- `_PROFILES`
abbrev pub profiles : List Profile
profiles =
    critical_response_with_review ∷ data_only_fast_path ∷ general_chat_fast_path ∷ default ∷ []

unfoldable pub first_match : Request → List Profile → Profile
unfolding matches
first_match r [] = default
first_match r (p ∷ ps) = let rest = first_match r ps in if matches p r then p else rest

unfoldable pub select_profile : Request → Profile
unfolding first_match
select_profile r = first_match r profiles

-- The selected profile matches the request, and no profile of a higher priority does.
pub select_profile-highest :
    (r : Request) (p : Profile)
    → matches p r ≡ true
    → (matches (select_profile r) r ≡ true) × (priority p ≤ priority (select_profile r))
unfolding select_profile first_match matches priority
select_profile-highest r critical_response_with_review h = ground (arith, h)
select_profile-highest r data_only_fast_path h = ground (arith, h)
select_profile-highest r general_chat_fast_path h = ground (arith, h)
select_profile-highest r default h = ground (arith, h)
