-- ===== src/Matching/Matchers/Discovery.antt =====
-- src/lib/matching/familyDiscoveryMatchers.ts.
use Prim.Native.String.{◌++◌ as concat}
use helpan_ai.Prelude.{
  ℕ, suc, String, Bool, true, false, not, ◌&&◌, Option, none, some, List, [], ◌∷◌, ◌++◌, ◌==◌,
  if◌then◌else◌,
}
use helpan_ai.Json.{Number, Json, null, num, obj, Items, nil, cons, Fields, end, field, get_field}
use helpan_ai.Json.Stringify.{decimal}
use helpan_ai.Matching.Types.{
  Platform, MatchableBriefing, MatchableEvent, BriefingMatch, Check, passed, refused, thrown, ◌>>=◌,
  pure, type_error, num_lt, truthy, as_number, as_non_empty, js_string, is_inherited, with_truthy,
}
use helpan_ai.Matching.Conditions.{check_listed, check_distance, check_time_window, check_ceiling}
use helpan_ai.Matching.Matches.{has_domain, with_distance, reason_of_distance, detail_of, match_of}

unfoldable pub is_fresh_arrivals_briefing : MatchableBriefing → Bool
is_fresh_arrivals_briefing = has_domain "family_discovery.fresh_arrivals"

unfoldable pub match_fresh_arrivals_briefing :
    Platform → ℕ → MatchableBriefing → MatchableEvent → Check BriefingMatch
unfolding check_distance check_time_window
match_fresh_arrivals_briefing p now b e = do
  listed ←
      check_listed (get_field "categories" b.intent) (get_field "category" e.payload)
        "category_in_whitelist"
  distance ← check_distance p b.intent e.payload
  timely ←
      check_time_window p now (get_field "time_window" b.intent) (get_field "arrived_at" e.payload)
  priced ←
      check_ceiling (get_field "max_price_minor" b.intent) (get_field "price_minor" e.payload)
        "within_max_price_minor"
  pure (
      match_of b (
        detail_of "family_discovery_fresh_arrivals" b e
          (listed ++ reason_of_distance distance ++ timely ++ priced)
          (with_distance distance
            (with_truthy "listing_id" (get_field "listing_id" e.payload) end))))

unfoldable pub is_basket_refill_briefing : MatchableBriefing → Bool
is_basket_refill_briefing = has_domain "family_discovery.basket_auto_refill"

-- `byKey`, the last write in front. The key `__proto__` of a plain object sets none.
abbrev pub Ceilings : Type 0
Ceilings = List (String × Option Json)

abbrev pub add_ceiling : Option Json → Option Json → Ceilings → Ceilings
add_ceiling none ceiling known = known
add_ceiling (some sku) ceiling known =
    if truthy (some sku) && not (js_string sku == "__proto__")
    then (js_string sku, ceiling) ∷ known
    else known

unfoldable pub by_key : Items → Ceilings → Check Ceilings
unfolding js_string
by_key nil known = passed known
by_key (cons null rest) known = thrown type_error
by_key (cons (obj fields) rest) known =
    by_key rest (add_ceiling (get_field "sku" fields) (get_field "max_price_minor" fields) known)
by_key (cons v rest) known = by_key rest known

-- `sku in byKey` and `byKey[sku]`: an inherited name is there too, with a value that is no number.
unfoldable pub ceiling_of : Ceilings → String → Option (Option Json)
unfolding is_inherited
ceiling_of [] sku = if is_inherited sku then some none else none
ceiling_of ((k, c) ∷ known) sku = elim (k == sku) [ true ↦ some c | false ↦ ceiling_of known sku ]

abbrev pub within : Option Number → Option Number → Bool
within none price = true
within (some ceiling) none = false
within (some ceiling) (some price) = not (num_lt ceiling price)

abbrev pub price_within : Option (Option Json) → Option Json → Bool
price_within none price = false
price_within (some ceiling) price = within (as_number ceiling) (as_number price)

abbrev pub sku_approved : Ceilings → Option Json → Option Json → Bool
sku_approved known none price = false
sku_approved known (some sku) price =
    truthy (some sku) && price_within (ceiling_of known (js_string sku)) price

abbrev pub line_approved : Ceilings → Fields → Bool
line_approved known line = sku_approved known (get_field "sku" line) (get_field "price_minor" line)

-- The number of lines, if all are approved.
unfoldable pub approve_lines : Ceilings → Items → Check ℕ
unfolding ceiling_of js_string
approve_lines known nil = passed 0
approve_lines known (cons null rest) = thrown type_error
approve_lines known (cons (obj line) rest) = elim (line_approved known line) [
  | false ↦ refused
  | true ↦ approve_lines known rest >>= (λ n. passed (suc n))
]
approve_lines known (cons v rest) = refused

abbrev pub lines_reason : ℕ → List String
lines_reason n = concat "all_" (concat (decimal n) "_lines_approved") ∷ []

abbrev pub check_lines_by : Option Items → Items → Check (List String)
check_lines_by none lines = passed []
check_lines_by (some items) lines =
    by_key items [] >>= (λ known. approve_lines known lines >>= (λ n. passed (lines_reason n)))

unfoldable pub check_lines : Fields → Fields → Check (List String)
unfolding by_key approve_lines
check_lines intent payload = elim (as_non_empty (get_field "line_items" payload)) [
  | none ↦ refused
  | some lines ↦ check_lines_by (as_non_empty (get_field "items" intent)) lines
]

abbrev with_number : String → Option Number → Fields → Fields
with_number key none rest = rest
with_number key (some n) rest = field key (num n) rest

unfoldable pub match_basket_refill_briefing :
    MatchableBriefing → MatchableEvent → Check BriefingMatch
unfolding check_lines
match_basket_refill_briefing b e = do
  merchant ←
      check_listed (get_field "merchant_ids" b.intent) (get_field "merchant_id" e.payload)
        "merchant_in_allowlist"
  lines ← check_lines b.intent e.payload
  total ←
      check_ceiling (get_field "max_total_minor" b.intent) (get_field "total_minor" e.payload)
        "within_max_total_minor"
  pure (
      match_of b (
        detail_of "family_discovery_basket_auto_refill" b e (merchant ++ lines ++ total) (
          with_truthy "basket_id" (get_field "basket_id" e.payload) (
            with_truthy "merchant_id" (get_field "merchant_id" e.payload)
              (with_number "total_minor" (as_number (get_field "total_minor" e.payload)) end)))))
