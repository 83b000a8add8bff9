-- ===== src/Matching/Matchers/RoundUp.antt =====
-- What a round-up match computes.
use helpan_ai.Prelude.{
  ℕ, ◌+◌, ◌-◌, ◌*◌, ◌/◌, ◌%◌, ◌<◌, String, Bool, true, false, not, Option, some, List, ◌≡◌, refl,
  sym, arith, nat_eq,
}
use mathlib.Core.Path.{subst}
use native.Mathlib.Nat.{div-add-mod', mod-lt}
use helpan_ai.Json.{Number, pos, Json, get_field, nat}
use helpan_ai.Matching.Types.{
  MatchableBriefing, MatchableEvent, BriefingMatch, passed, pure, reason_if, as_number, num_lt,
}
use helpan_ai.Matching.Conditions.{check_ceiling, check_floor}
use helpan_ai.Matching.Matchers.Chapaa.{round_unit, positive, match_round_up_briefing}
use helpan_ai.Matching.Matchers.Basket.{bind-eq-passed, check_ceiling-le}

round_unit_pos : (b : MatchableBriefing) → 0 < round_unit b.intent
round_unit_pos b = ground arith

rounds :
    (amount unit : ℕ)
    → 0 < unit
    → nat_eq (amount % unit) 0 ≡ false
    → (amount + (unit - amount % unit) ≡ amount / unit * unit + unit)
      × (0 < unit - amount % unit)
      × (unit - amount % unit < unit)
rounds amount unit above h =
    let whole = div-add-mod' amount unit in
    let part = mod-lt amount above in
    let left : 0 < amount % unit = ground arith in
    (omega (arith, whole, part), omega (arith, part), omega (arith, part, left))

positive-pos :
    (n : Option Number) (amount : ℕ)
    → positive n ≡ passed amount
    → (n ≡ some (pos amount)) × (0 < amount)
positive-pos n amount h = ground arith

ceiling_kept :
    (limit : Option Json) (v : ℕ) (reason : String) (reasons : List String) (most : Number)
    → check_ceiling limit (some (nat v)) reason ≡ passed reasons
    → as_number limit ≡ some most
    → num_lt most (pos v) ≡ false
ceiling_kept limit v reason reasons most h e =
    let (w, given, kept) = check_ceiling-le limit (some (nat v)) reason reasons most h e in
    let same : pos v ≡ w = ground arith in subst (λ n. num_lt most n ≡ false) (sym same) kept

-- What holds of a match that a matcher gives holds of the match that it gave.
passed-carry {ℓ} :
    (P : BriefingMatch → Type ℓ) (a m : BriefingMatch) → pure a ≡ passed m → P a → P m
passed-carry P a m h p = let same : a ≡ m = ground arith in subst P same p

reason_if-holds :
    (test : Bool) (reason : String) (r : List String)
    → reason_if test reason ≡ passed r
    → test ≡ true
reason_if-holds true reason r h = refl
reason_if-holds false reason r h = absurd (cc)

-- Where a debit matches a briefing for round-ups, its amount is positive, and the round-up of the
-- match's detail is positive, less than the unit, takes the amount to the next multiple of the
-- unit, and is within the briefing's ceiling, if it has one.
pub match_round_up-next_multiple :
    (b : MatchableBriefing) (e : MatchableEvent) (m : BriefingMatch)
    → match_round_up_briefing b e ≡ passed m
    → let unit = round_unit b.intent in
      (amount : ℕ) × (round_up : ℕ) × (as_number (get_field "amount_minor" e.payload)
        ≡ some (pos amount))
      × (get_field "computed_round_up_minor" m.detail ≡ some (nat round_up))
      × (amount + round_up ≡ amount / unit * unit + unit)
      × (0 < amount)
      × (0 < round_up)
      × (round_up < unit)
      × ((most : Number)
          → as_number (get_field "max_round_up_minor" b.intent) ≡ some most
          → num_lt most (pos round_up) ≡ false)
unfolding match_round_up_briefing get_field
match_round_up-next_multiple b e m h =
    let unit = round_unit b.intent in
    let (amount, given, h1) =
      bind-eq-passed (positive (as_number (get_field "amount_minor" e.payload))) _ m h in
    let (reasons, uneven, h2) =
      bind-eq-passed (reason_if (not (nat_eq (amount % unit) 0)) "round_up_positive") _ m h1 in
    let (floors, floor_ok, h3) =
      bind-eq-passed
        (check_floor (get_field "min_unrounded_minor" b.intent) (some (nat (amount % unit)))
          "min_unrounded_minor_met")
        _ m h2 in
    let (ceilings, ceiling_ok, ends) =
      bind-eq-passed
        (check_ceiling (get_field "max_round_up_minor" b.intent) (some (nat (unit - amount % unit)))
          "within_max_round_up_minor")
        _ m h3 in
    let (number, above) = positive-pos _ amount given in
    let test = reason_if-holds _ "round_up_positive" reasons uneven in
    let (next, more, less) = rounds amount unit (round_unit_pos b) (ground arith) in
    (
      amount,
      unit - amount % unit,
      number,
      passed-carry
          (λ x. get_field "computed_round_up_minor" x.detail ≡ some (nat (unit - amount % unit))) _
          m ends refl,
      next,
      above,
      more,
      less,
      λ most.
          ceiling_kept (get_field "max_round_up_minor" b.intent) (unit - amount % unit)
            "within_max_round_up_minor" ceilings most ceiling_ok,
    )
