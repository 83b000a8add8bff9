-- ===== src/Matching/Engine.antt =====
-- `matchEventAgainstBriefings` of src/lib/matching/engine.ts.
pub mod Sources
pub mod Inherited
use helpan_ai.Prelude.{
  ℕ, String, Bool, true, false, Option, none, some, List, [], ◌∷◌, ◌==◌, if◌then◌else◌,
}
use helpan_ai.Json.{
  Json, null, bool, num, str, arr, obj, Items, nil, cons, Fields, end, field, get_field,
  string_list,
}
use helpan_ai.Store.Tx.{Result, ok, err}
use helpan_ai.Matching.Types.{
  Platform, MatchableBriefing, MatchableEvent, BriefingMatch, Check, passed, refused, thrown,
  type_error, is_inherited,
}
use helpan_ai.Matching.Equal.{payload_covers_match_predicate}
use helpan_ai.Matching.Matches.{match_of}
use helpan_ai.Matching.Matchers.Klokd.{is_klokd_shift_briefing, match_klokd_shift_briefing}
use helpan_ai.Matching.Matchers.LunchDrop.{
  is_lunch_drop_plan_briefing, match_lunch_drop_plan_briefing,
}
use helpan_ai.Matching.Matchers.Chapaa.{
  is_round_up_briefing, match_round_up_briefing, is_goal_acceleration_briefing,
  match_goal_acceleration_briefing,
}
use helpan_ai.Matching.Matchers.Discovery.{
  is_fresh_arrivals_briefing, match_fresh_arrivals_briefing, is_basket_refill_briefing,
  match_basket_refill_briefing,
}

-- `Object.keys(fields)`.
unfoldable pub keys : Fields → List String
keys end = []
keys (field k v rest) = k ∷ keys rest

abbrev generic_detail : MatchableBriefing → MatchableEvent → Fields → Fields
generic_detail b e predicate = field "match_kind" (str "generic_key_equality") (
    field "predicate_keys" (arr (string_list (keys predicate)))
      (field "briefing_type" (str b.briefing_type) (field "event_type" (str e.event_type) end)))

abbrev predicate_of : Option Json → Option Fields
predicate_of (some (obj fields)) = some fields
predicate_of _ = none

unfoldable pub generic_match : MatchableBriefing → MatchableEvent → Check BriefingMatch
unfolding keys
generic_match b e = elim (predicate_of (get_field "match" b.intent)) [
  | none ↦ refused
  | some predicate ↦
      if payload_covers_match_predicate e.payload predicate
      then passed (match_of b (generic_detail b e predicate))
      else refused
]

-- What the router pushes for a briefing: `alien` is a truthy value that is no match.
pub data Pushed : Type 0 where
  real : BriefingMatch → Pushed
  alien : Pushed

abbrev guarded : Bool → Check BriefingMatch → Check BriefingMatch
guarded guard m = if guard then m else refused

abbrev pub real_match : Check BriefingMatch → Check Pushed
real_match (passed m) = passed (real m)
real_match refused = refused
real_match (thrown e) = thrown e

-- An inherited property of the table, called with no receiver: `Object` returns its argument, and
-- `toString` a text; the others throw.
abbrev inherited_matcher : String → Check Pushed
inherited_matcher name =
    if name == "constructor"
    then passed alien
    else if name == "toString"
    then passed alien
    else thrown type_error

-- `DOMAIN_MATCHERS[domain]`, and the generic matcher for a name that is not there.
unfoldable pub match_domain :
    Platform → ℕ → String → MatchableBriefing → MatchableEvent → Check Pushed
match_domain p now domain b e =
    if domain == "klokd.shift_search"
    then real_match (guarded (is_klokd_shift_briefing b) (match_klokd_shift_briefing p now b e))
    else if domain == "lunchdrop.weekly_plan"
    then real_match (guarded (is_lunch_drop_plan_briefing b) (match_lunch_drop_plan_briefing p b e))
    else if domain == "chapaa.round_up_offer"
    then real_match (guarded (is_round_up_briefing b) (match_round_up_briefing b e))
    else if domain == "chapaa.goal_acceleration"
    then real_match
        (guarded (is_goal_acceleration_briefing b) (match_goal_acceleration_briefing b e))
    else if domain == "family_discovery.fresh_arrivals"
    then real_match
        (guarded (is_fresh_arrivals_briefing b) (match_fresh_arrivals_briefing p now b e))
    else if domain == "family_discovery.basket_auto_refill"
    then real_match (guarded (is_basket_refill_briefing b) (match_basket_refill_briefing b e))
    else if is_inherited domain
    then inherited_matcher domain
    else real_match (generic_match b e)

abbrev match_by : Platform → ℕ → Option Json → MatchableBriefing → MatchableEvent → Check Pushed
match_by p now (some (str domain)) b e = match_domain p now domain b e
match_by p now _ b e = real_match (generic_match b e)

unfoldable pub match_briefing : Platform → ℕ → MatchableBriefing → MatchableEvent → Check Pushed
unfolding match_domain generic_match
match_briefing p now b e = match_by p now (get_field "domain" b.intent) b e

abbrev pub push : Check Pushed → Result (List Pushed) → Result (List Pushed)
push (passed m) (ok ms) = ok (m ∷ ms)
push (passed m) (err e) = err e
push refused ms = ms
push (thrown e) ms = err e

unfoldable pub match_event_against_briefings :
    Platform → ℕ → MatchableEvent → List MatchableBriefing → Result (List Pushed)
unfolding match_briefing
match_event_against_briefings p now e [] = ok []
match_event_against_briefings p now e (b ∷ bs) =
    push (match_briefing p now b e) (match_event_against_briefings p now e bs)
