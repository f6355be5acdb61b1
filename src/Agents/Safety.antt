-- ===== src/Agents/Safety.antt =====
-- agents/safety_checker.py: which actions need an approval.
use mathlib.Core.List.{map-append}
use water_info.Base.{
  ◌≡◌, refl, ap, String, Bool, true, false, List, [], ◌∷◌, ◌++◌, map, keep, keep-append, any,
  if◌then◌else◌, ◌==◌, string_eq, ◌↔◌,
}

-- What the check reads of an action: its type and its description, "" without one.
pub record Action : Type 0 where
  pub action_type : String
  pub description : String

abbrev pub high_risk_actions : List String
high_risk_actions =
    "evacuation" ∷ "road_closure" ∷ "service_suspension" ∷ "dispatch_approval"
    ∷ "external_notification" ∷ "level_escalation" ∷ []

pub record PendingApproval : Type 0 where
  pub action_type : String
  pub action_payload : Action
  pub status : String

pub record SafetyCheckResult : Type 0 where
  pub safe_to_proceed : Bool
  pub risk_factors : List String
  pub required_approvals : List String

unfoldable pub with_type : String → Action → Action
with_type t a = record a { action_type = t }

-- The three kinds of action: those of the plan, orders and notifications.
unfoldable pub extract_actions : List Action → List Action → List Action → List Action
unfolding with_type
extract_actions plan_actions orders notifications =
    plan_actions
    ++ map (with_type "dispatch_approval") orders
    ++ map (with_type "external_notification") notifications

unfoldable pub is_high_risk : Action → Bool
unfolding any
is_high_risk a = any (λ t. t == a.action_type) high_risk_actions

unfoldable pub is_empty {ℓ} : {A : Type ℓ} → List A → Bool
is_empty [] = true
is_empty (a ∷ as') = false

-- `description or action_type`
unfoldable pub factor : Action → String
factor a = if a.description == "" then a.action_type else a.description

unfoldable pub pending_of : Action → PendingApproval
pending_of a = record { action_type = a.action_type; action_payload = a; status = "pending" }

unfoldable pub safety_checker_node : List Action → SafetyCheckResult × List PendingApproval
unfolding keep is_high_risk is_empty factor pending_of
safety_checker_node actions =
    let high_risk = keep is_high_risk actions in
    (
      record {
        safe_to_proceed = is_empty high_risk;
        risk_factors = map factor high_risk;
        required_approvals = if is_empty high_risk then [] else "commander" ∷ [];
      },
      map pending_of high_risk,
    )

-- An approval that is asked for, of an action under a type.
abbrev pub asks : String → Action → PendingApproval
asks t a = record {
  action_type = t;
  action_payload = record { action_type = t; description = a.description };
  status = "pending";
}

asks_each :
    (t : String) (as' : List Action)
    → any (λ u. u == t) high_risk_actions ≡ true
    → map pending_of (keep is_high_risk (map (with_type t) as')) ≡ map (asks t) as'
unfolding keep with_type is_high_risk pending_of
asks_each t [] h = refl
asks_each t (a ∷ as') h = rw h (ap (λ rest. asks t a ∷ rest) (asks_each t as' h))

asks_own : (as' : List Action) → map pending_of as' ≡ map (λ a. asks a.action_type a) as'
unfolding pending_of
asks_own [] = refl
asks_own (a ∷ as') = ap (λ rest. asks a.action_type a ∷ rest) (asks_own as')

empty_iff : (xs : List Action) → (is_empty xs ≡ true) ↔ (map pending_of xs ≡ [])
unfolding is_empty
empty_iff [] = (λ h. refl, λ h. refl)
empty_iff (a ∷ as') = (λ h. cc, λ h. cc)

-- A check asks for one pending approval, with the action as its payload, of each action of the plan
-- whose type is dangerous, under this type, then of each dispatch order, under "dispatch_approval",
-- and of each notification, under "external_notification", in their order, and for no other. It
-- finds it safe to proceed exactly when it asks for none.
pub safety_checker_node-approvals :
    (plan_actions orders notifications : List Action)
    → let (result, pending) =
        safety_checker_node (extract_actions plan_actions orders notifications) in
      (pending
        ≡ map
            (λ a. asks a.action_type a)
            (keep (λ a. any (λ t. t == a.action_type) high_risk_actions) plan_actions)
          ++ map (asks "dispatch_approval") orders
          ++ map (asks "external_notification") notifications)
      × ((result.safe_to_proceed ≡ true) ↔ (pending ≡ []))
unfolding safety_checker_node extract_actions is_high_risk any
safety_checker_node-approvals plan_actions orders notifications =
    let os = map (with_type "dispatch_approval") orders in
    let ns = map (with_type "external_notification") notifications in
    let all = keep is_high_risk (plan_actions ++ os ++ ns) in
    let listed : map pending_of all
        ≡ map (λ a. asks a.action_type a) (keep is_high_risk plan_actions)
          ++ map (asks "dispatch_approval") orders
          ++ map (asks "external_notification") notifications =
      rw
        (
          keep-append is_high_risk (plan_actions ++ os) ns,
          keep-append is_high_risk plan_actions os,
          map-append pending_of (keep is_high_risk plan_actions ++ keep is_high_risk os)
              (keep is_high_risk ns),
          map-append pending_of (keep is_high_risk plan_actions) (keep is_high_risk os),
          asks_each "dispatch_approval" orders refl,
          asks_each "external_notification" notifications refl,
          asks_own (keep is_high_risk plan_actions),
        )
        refl in
    (listed, empty_iff all)
