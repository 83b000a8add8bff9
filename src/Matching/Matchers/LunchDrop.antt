-- ===== src/Matching/Matchers/LunchDrop.antt =====
-- src/lib/matching/lunchDropPlanMatcher.ts.
use helpan_ai.Prelude.{
  String, Bool, true, false, Option, none, some, List, [], ◌∷◌, ◌++◌, ◌==◌, any, if◌then◌else◌,
}
use helpan_ai.Json.{Json, null, str, arr, obj, Items, nil, cons, Fields, end, field, get_field}
use helpan_ai.Matching.Types.{
  Platform, MatchableBriefing, MatchableEvent, BriefingMatch, Check, passed, refused, thrown, ◌>>=◌,
  pure, type_error, reason_if, no_reason, strict_equal, truthy, includes, includes_field,
  as_non_empty, with_truthy,
}
use helpan_ai.Matching.Conditions.{check_ceiling}
use helpan_ai.Matching.Matches.{has_domain, detail_of, match_of}

unfoldable pub is_lunch_drop_plan_briefing : MatchableBriefing → Bool
is_lunch_drop_plan_briefing = has_domain "lunchdrop.weekly_plan"

abbrev fallback_items : Option Json → Items
fallback_items (some (arr items)) = items
fallback_items _ = nil

-- The primary merchant, if the intent names one, then the fallback merchants.
abbrev pub candidates_of : Fields → Items
candidates_of intent = elim (get_field "merchant_id" intent) [
  | none ↦ fallback_items (get_field "fallback_merchant_ids" intent)
  | some v ↦
      if truthy (some v)
      then cons v (fallback_items (get_field "fallback_merchant_ids" intent))
      else fallback_items (get_field "fallback_merchant_ids" intent)
]

pub data MerchantRole : Type 0 where
  primary fallback : MerchantRole

abbrev same_field : Option Json → Option Json → Bool
same_field (some a) (some b) = strict_equal a b
same_field _ _ = false

-- `none` where the intent names no merchant.
unfoldable pub check_merchant : Fields → Fields → Check (Option MerchantRole)
unfolding includes
check_merchant intent payload = elim (candidates_of intent) [
  | nil ↦ passed none
  | cons v rest ↦
      if includes_field (cons v rest) (get_field "merchant_id" payload)
      then passed (
          some (
            if same_field (get_field "merchant_id" payload) (get_field "merchant_id" intent)
            then primary
            else fallback))
      else refused
]

abbrev role_reason : Option MerchantRole → List String
role_reason none = []
role_reason (some primary) = "merchant_primary" ∷ []
role_reason (some fallback) = "merchant_fallback" ∷ []

abbrev with_role : Option MerchantRole → Fields → Fields
with_role none rest = rest
with_role (some primary) rest = field "merchant_matched_as" (str "primary") rest
with_role (some fallback) rest = field "merchant_matched_as" (str "fallback") rest

-- `menu_preference.map((s) => s.toLowerCase())`: only a text has the method.
unfoldable pub lower_all : Platform → Items → Check (List String)
lower_all p nil = passed []
lower_all p (cons (str s) rest) = elim (lower_all p rest) [
  | passed ss ↦ passed (p.to_lower_case s ∷ ss)
  | refused ↦ refused
  | thrown e ↦ thrown e
]
lower_all p (cons v rest) = thrown type_error

abbrev wanted_name : Platform → List String → Option Json → Bool
wanted_name p wanted (some (str name)) = any (λ w. w == p.to_lower_case name) wanted
wanted_name p wanted _ = false

-- `items.some(…)`, which stops at the first hit; a property of null throws.
unfoldable pub any_wanted : Platform → List String → Items → Check Bool
any_wanted p wanted nil = passed false
any_wanted p wanted (cons null rest) = thrown type_error
any_wanted p wanted (cons (obj fields) rest) =
    elim (wanted_name p wanted (get_field "name" fields)) [
      | true ↦ passed true
      | false ↦ any_wanted p wanted rest
    ]
any_wanted p wanted (cons v rest) = any_wanted p wanted rest

unfoldable pub check_menu : Platform → Fields → Fields → Check (List String)
unfolding lower_all any_wanted
check_menu p intent payload = elim (as_non_empty (get_field "menu_preference" intent)) [
  | none ↦ no_reason
  | some preferred ↦ lower_all p preferred >>= (λ wanted.
      any_wanted p wanted (fallback_items (get_field "items" payload))
      >>= (λ hit. reason_if hit "menu_preference_hit"))
]

unfoldable pub match_lunch_drop_plan_briefing :
    Platform → MatchableBriefing → MatchableEvent → Check BriefingMatch
unfolding check_merchant check_menu
match_lunch_drop_plan_briefing p b e = do
  role ← check_merchant b.intent e.payload
  menu ← check_menu p b.intent e.payload
  priced ←
      check_ceiling (get_field "max_per_order_minor" b.intent) (get_field "total_minor" e.payload)
        "within_max_per_order_minor"
  pure (
      match_of b (
        detail_of "lunchdrop_weekly_plan" b e (role_reason role ++ menu ++ priced)
          (with_role role (with_truthy "order_id" (get_field "order_id" e.payload) end))))
