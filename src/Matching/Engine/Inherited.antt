-- ===== src/Matching/Engine/Inherited.antt =====
-- A briefing whose domain is a name that every object inherits.
use helpan_ai.Prelude.{
  ℕ, String, Bool, true, false, some, List, [], ◌∷◌, ◌≡◌, refl, ap, arith, ◌==◌, ◌⊎◌, inl, inr, any,
  eq_iff, Bool-cases, if◌then◌else◌,
}
use helpan_ai.Json.{str, get_field}
use helpan_ai.Store.Tx.{Result, ok, err}
use helpan_ai.Matching.Types.{
  Platform, MatchableBriefing, MatchableEvent, Check, passed, refused, thrown, is_inherited,
}
use helpan_ai.Matching.Engine.{
  Pushed, real, alien, match_domain, match_by, match_briefing, push, match_event_against_briefings,
  inherited_matcher,
}

-- The briefing's intent names such a domain.
abbrev pub HasInheritedDomain : MatchableBriefing → Type 0
HasInheritedDomain b =
    (d : String) × (get_field "domain" b.intent ≡ some (str d)) × (is_inherited d ≡ true)

abbrev is_alien : Pushed → Bool
is_alien alien = true
is_alien (real m) = false

abbrev pub has_alien : List Pushed → Bool
has_alien ms = any is_alien ms

-- It threw, or pushed a value that is no match.
abbrev IsSpoiled : Check Pushed → Type 0
IsSpoiled (passed m) = is_alien m ≡ true
IsSpoiled refused = ⊥
IsSpoiled (thrown e) = Unit

inherited-ne :
    (d name : String) → is_inherited d ≡ true → is_inherited name ≡ false → (d == name) ≡ false
inherited-ne d name h k = elim (Bool-cases (d == name)) [
  | inr apart ↦ apart
  | inl same ↦ let e = (eq_iff d name).0 same in absurd (ground (arith, ap is_inherited e))
]

inherited_matcher-IsSpoiled : (d : String) → IsSpoiled (inherited_matcher d)
inherited_matcher-IsSpoiled d = ground arith

else-IsSpoiled :
    (test : Bool) (x y : Check Pushed)
    → test ≡ false
    → IsSpoiled y
    → IsSpoiled (if test then x else y)
else-IsSpoiled true x y e h = absurd (cc)
else-IsSpoiled false x y e h = h

then-IsSpoiled :
    (test : Bool) (x y : Check Pushed)
    → test ≡ true
    → IsSpoiled x
    → IsSpoiled (if test then x else y)
then-IsSpoiled true x y e h = h
then-IsSpoiled false x y e h = absurd (cc)

match_domain-IsSpoiled :
    (p : Platform) (now : ℕ) (d : String) (b : MatchableBriefing) (e : MatchableEvent)
    → is_inherited d ≡ true
    → IsSpoiled (match_domain p now d b e)
unfolding match_domain is_inherited
match_domain-IsSpoiled p now d b e h =
    else-IsSpoiled _ _ _ (inherited-ne d "klokd.shift_search" h refl) (
      else-IsSpoiled _ _ _ (inherited-ne d "lunchdrop.weekly_plan" h refl) (
        else-IsSpoiled _ _ _ (inherited-ne d "chapaa.round_up_offer" h refl) (
          else-IsSpoiled _ _ _ (inherited-ne d "chapaa.goal_acceleration" h refl) (
            else-IsSpoiled _ _ _ (inherited-ne d "family_discovery.fresh_arrivals" h refl) (
              else-IsSpoiled _ _ _ (inherited-ne d "family_discovery.basket_auto_refill" h refl)
                (then-IsSpoiled _ _ _ h (inherited_matcher-IsSpoiled d)))))))

match_briefing-IsSpoiled :
    (p : Platform) (now : ℕ) (b : MatchableBriefing) (e : MatchableEvent)
    → HasInheritedDomain b
    → IsSpoiled (match_briefing p now b e)
unfolding match_briefing
match_briefing-IsSpoiled p now b e (d, named, inherited) =
    rw (named, match_by) (match_domain-IsSpoiled p now d b e inherited)

-- Some briefing of the list has such a domain.
abbrev pub IsPoisoned : List MatchableBriefing → Type 0
IsPoisoned [] = ⊥
IsPoisoned (b ∷ bs) = HasInheritedDomain b ⊎ IsPoisoned bs

push_spoiled :
    (c : Check Pushed) (rest : Result (List Pushed)) (ms : List Pushed)
    → IsSpoiled c
    → push c rest ≡ ok ms
    → has_alien ms ≡ true
push_spoiled (passed m) (ok rest) ms h e = ground arith
push_spoiled (passed m) (err x) ms h e = absurd (cc)
push_spoiled refused rest ms h e = absurd h
push_spoiled (thrown x) rest ms h e = absurd (cc)

push-has_alien :
    (c : Check Pushed) (rest : Result (List Pushed)) (ms : List Pushed)
    → ((later : List Pushed) → rest ≡ ok later → has_alien later ≡ true)
    → push c rest ≡ ok ms
    → has_alien ms ≡ true
push-has_alien (passed m) (ok rest) ms h e = ground (arith, h rest refl)
push-has_alien (passed m) (err x) ms h e = absurd (cc)
push-has_alien refused rest ms h e = h ms e
push-has_alien (thrown x) rest ms h e = absurd (cc)

-- With such a briefing the engine throws, or pushes a value that is no match.
pub match_event-has_alien :
    (p : Platform) (now : ℕ) (e : MatchableEvent) (bs : List MatchableBriefing)
    (pushed : List Pushed)
    → IsPoisoned bs
    → match_event_against_briefings p now e bs ≡ ok pushed
    → has_alien pushed ≡ true
unfolding match_event_against_briefings
match_event-has_alien p now e [] pushed h k = absurd h
match_event-has_alien p now e (b ∷ bs) pushed (inl here) k =
    push_spoiled (match_briefing p now b e) _ pushed (match_briefing-IsSpoiled p now b e here) k
match_event-has_alien p now e (b ∷ bs) pushed (inr later) k =
    push-has_alien (match_briefing p now b e) (match_event_against_briefings p now e bs) pushed
      (λ ms. match_event-has_alien p now e bs ms later) k
