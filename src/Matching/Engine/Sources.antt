-- ===== src/Matching/Engine/Sources.antt =====
-- Which briefing a match names.
use helpan_ai.Prelude.{
  any, eq_iff, ◌&&◌, ℕ, String, Bool, true, false, Option, none, some, List, [], ◌∷◌, ◌≡◌, refl,
  arith, All, All-map, ◌==◌, if◌then◌else◌,
}
use mathlib.Core.Path.{subst}
use helpan_ai.Json.{Json, null, bool, num, str, arr, obj, get_field}
use helpan_ai.Store.Tx.{Result, ok, err}
use helpan_ai.Matching.Types.{
  Platform, MatchableBriefing, MatchableEvent, BriefingMatch, Check, passed, refused, thrown,
  is_inherited,
}
use helpan_ai.Matching.Matchers.Klokd.{match_klokd_shift_briefing}
use helpan_ai.Matching.Matchers.LunchDrop.{match_lunch_drop_plan_briefing}
use helpan_ai.Matching.Matchers.Chapaa.{match_round_up_briefing, match_goal_acceleration_briefing}
use helpan_ai.Matching.Matchers.Discovery.{
  match_fresh_arrivals_briefing, match_basket_refill_briefing,
}
use helpan_ai.Matching.Engine.{
  Pushed, real, alien, real_match, guarded, generic_match, match_domain, match_by, match_briefing,
  push, match_event_against_briefings, inherited_matcher,
}

abbrev pub NamesBriefing : MatchableBriefing → BriefingMatch → Type 0
NamesBriefing b m = (m.briefing_id ≡ b.id) × (m.account_uuid ≡ b.account_uuid)

abbrev Ensures : (BriefingMatch → Type 0) → Check BriefingMatch → Type 0
Ensures P (passed m) = P m
Ensures P refused = Unit
Ensures P (thrown e) = Unit

module _ (p : Platform) (now : ℕ) (b : MatchableBriefing) (e : MatchableEvent) where
  abbrev Names : Check BriefingMatch → Type 0
  Names = Ensures (NamesBriefing b)

  klokd-Names : Names (match_klokd_shift_briefing p now b e)
  unfolding match_klokd_shift_briefing
  klokd-Names = ground arith

  lunch_drop-Names : Names (match_lunch_drop_plan_briefing p b e)
  unfolding match_lunch_drop_plan_briefing
  lunch_drop-Names = ground arith

  round_up-Names : Names (match_round_up_briefing b e)
  unfolding match_round_up_briefing
  round_up-Names = ground arith

  goal-Names : Names (match_goal_acceleration_briefing b e)
  unfolding match_goal_acceleration_briefing
  goal-Names = ground arith

  fresh-Names : Names (match_fresh_arrivals_briefing p now b e)
  unfolding match_fresh_arrivals_briefing
  fresh-Names = ground arith

  basket-Names : Names (match_basket_refill_briefing b e)
  unfolding match_basket_refill_briefing
  basket-Names = ground arith

  generic-Names : Names (generic_match b e)
  unfolding generic_match
  generic-Names = ground arith

  abbrev FromBriefing : Pushed → Type 0
  FromBriefing (real m) = NamesBriefing b m
  FromBriefing alien = Unit

  abbrev PushedFrom : Check Pushed → Type 0
  PushedFrom (passed m) = FromBriefing m
  PushedFrom refused = Unit
  PushedFrom (thrown x) = Unit

  guarded-PushedFrom :
      (guard : Bool) (c : Check BriefingMatch) → Names c → PushedFrom (real_match (guarded guard c))
  guarded-PushedFrom true (passed m) h = h
  guarded-PushedFrom true refused h = tt
  guarded-PushedFrom true (thrown x) h = tt
  guarded-PushedFrom false c h = tt

  inherited-PushedFrom : (name : String) → PushedFrom (inherited_matcher name)
  inherited-PushedFrom name = ground arith

  if-PushedFrom :
      (test : Bool) (x y : Check Pushed)
      → PushedFrom x
      → PushedFrom y
      → PushedFrom (if test then x else y)
  if-PushedFrom true x y h k = h
  if-PushedFrom false x y h k = k

  match_domain-PushedFrom : (domain : String) → PushedFrom (match_domain p now domain b e)
  unfolding match_domain
  match_domain-PushedFrom domain =
      if-PushedFrom (domain == "klokd.shift_search") _ _ (guarded-PushedFrom _ _ klokd-Names) (
        if-PushedFrom (domain == "lunchdrop.weekly_plan") _ _
          (guarded-PushedFrom _ _ lunch_drop-Names)
          (if-PushedFrom (domain == "chapaa.round_up_offer") _ _
            (guarded-PushedFrom _ _ round_up-Names)
            (if-PushedFrom (domain == "chapaa.goal_acceleration") _ _
              (guarded-PushedFrom _ _ goal-Names)
              (if-PushedFrom (domain == "family_discovery.fresh_arrivals") _ _
                (guarded-PushedFrom _ _ fresh-Names)
                (if-PushedFrom (domain == "family_discovery.basket_auto_refill") _ _
                  (guarded-PushedFrom _ _ basket-Names)
                  (if-PushedFrom (is_inherited domain) _ _ (inherited-PushedFrom domain)
                    (guarded-PushedFrom true _ generic-Names)))))))

  match_by-PushedFrom : (domain : Option Json) → PushedFrom (match_by p now domain b e)
  match_by-PushedFrom none = guarded-PushedFrom true _ generic-Names
  match_by-PushedFrom (some null) = guarded-PushedFrom true _ generic-Names
  match_by-PushedFrom (some (bool x)) = guarded-PushedFrom true _ generic-Names
  match_by-PushedFrom (some (num n)) = guarded-PushedFrom true _ generic-Names
  match_by-PushedFrom (some (str domain)) = match_domain-PushedFrom domain
  match_by-PushedFrom (some (arr items)) = guarded-PushedFrom true _ generic-Names
  match_by-PushedFrom (some (obj fields)) = guarded-PushedFrom true _ generic-Names

  match_briefing-PushedFrom : PushedFrom (match_briefing p now b e)
  unfolding match_briefing
  match_briefing-PushedFrom = match_by-PushedFrom (get_field "domain" b.intent)

-- Some briefing of the list is the one that a match names.
abbrev pub IsMatchOf : List MatchableBriefing → BriefingMatch → Type 0
IsMatchOf bs m =
    any (λ (b : MatchableBriefing). b.id == m.briefing_id && b.account_uuid == m.account_uuid) bs
    ≡ true

abbrev pub IsPushedFor : List MatchableBriefing → Pushed → Type 0
IsPushedFor bs (real m) = IsMatchOf bs m
IsPushedFor bs alien = Unit

IsPushedFor-cons :
    (b : MatchableBriefing) (bs : List MatchableBriefing) (m : Pushed)
    → IsPushedFor bs m
    → IsPushedFor (b ∷ bs) m
IsPushedFor-cons b bs (real m) h = ground arith
IsPushedFor-cons b bs alien h = tt

FromBriefing-IsPushedFor :
    (p : Platform) (now : ℕ) (b : MatchableBriefing) (e : MatchableEvent)
    (bs : List MatchableBriefing) (m : Pushed)
    → FromBriefing p now b e m
    → IsPushedFor (b ∷ bs) m
FromBriefing-IsPushedFor p now b e bs (real m) (id, account) =
    ground (arith, eq_iff b.id m.briefing_id, eq_iff b.account_uuid m.account_uuid)
FromBriefing-IsPushedFor p now b e bs alien h = tt

push-IsPushedFor :
    (p : Platform) (now : ℕ) (e : MatchableEvent) (b : MatchableBriefing)
    (bs : List MatchableBriefing) (c : Check Pushed) (rest : Result (List Pushed))
    (pushed : List Pushed)
    → PushedFrom p now b e c
    → ((ms : List Pushed) → rest ≡ ok ms → All (IsPushedFor bs) ms)
    → push c rest ≡ ok pushed
    → All (IsPushedFor (b ∷ bs)) pushed
push-IsPushedFor p now e b bs (passed m) (ok ms) pushed h k eq =
    subst (All (IsPushedFor (b ∷ bs))) {x = m ∷ ms} (ground arith) (
      FromBriefing-IsPushedFor p now b e bs m h,
      All-map (IsPushedFor bs) (IsPushedFor (b ∷ bs)) ms (IsPushedFor-cons b bs) (k ms refl),
    )
push-IsPushedFor p now e b bs (passed m) (err x) pushed h k eq = absurd (cc)
push-IsPushedFor p now e b bs refused rest pushed h k eq =
    All-map (IsPushedFor bs) (IsPushedFor (b ∷ bs)) pushed (IsPushedFor-cons b bs) (k pushed eq)
push-IsPushedFor p now e b bs (thrown x) rest pushed h k eq = absurd (cc)

-- Each value that the engine pushes is no match, or names a briefing that it was given.
pub match_event-IsPushedFor :
    (p : Platform) (now : ℕ) (e : MatchableEvent) (bs : List MatchableBriefing)
    (pushed : List Pushed)
    → match_event_against_briefings p now e bs ≡ ok pushed
    → All (IsPushedFor bs) pushed
unfolding match_event_against_briefings
match_event-IsPushedFor p now e [] pushed h =
    let none_pushed : [] ≡ pushed = ground arith in rw (← none_pushed) tt
match_event-IsPushedFor p now e (b ∷ bs) pushed h =
    push-IsPushedFor p now e b bs (match_briefing p now b e)
      (match_event_against_briefings p now e bs) pushed (match_briefing-PushedFrom p now b e)
      (match_event-IsPushedFor p now e bs) h
