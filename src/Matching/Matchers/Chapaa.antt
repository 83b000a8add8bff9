-- ===== src/Matching/Matchers/Chapaa.antt =====
-- src/lib/matching/chapaaMatchers.ts.
use helpan_ai.Prelude.{
  ℕ, suc, ◌-◌, ◌%◌, String, Bool, false, not, Option, none, some, List, ◌∷◌, ◌++◌, nat_eq,
  if◌then◌else◌,
}
use helpan_ai.Json.{Number, pos, Json, Fields, end, field, get_field, nat}
use helpan_ai.Matching.Types.{
  MatchableBriefing, MatchableEvent, BriefingMatch, Check, passed, refused, ◌>>=◌, pure, reason_if,
  no_reason, strict_equal, truthy, as_number, with_truthy, with_defined,
}
use helpan_ai.Matching.Conditions.{check_ceiling, check_floor}
use helpan_ai.Matching.Matches.{has_domain, detail_of, match_of}

abbrev default_round_unit_minor : ℕ
default_round_unit_minor = 10_000

unfoldable pub is_round_up_briefing : MatchableBriefing → Bool
is_round_up_briefing = has_domain "chapaa.round_up_offer"

abbrev unit_or_default : Option Number → ℕ
unit_or_default (some (pos (suc n))) = suc n
unit_or_default _ = default_round_unit_minor

abbrev pub round_unit : Fields → ℕ
round_unit intent = unit_or_default (as_number (get_field "round_unit_minor" intent))

abbrev pub positive : Option Number → Check ℕ
positive (some (pos (suc n))) = passed (suc n)
positive _ = refused

unfoldable pub match_round_up_briefing : MatchableBriefing → MatchableEvent → Check BriefingMatch
match_round_up_briefing b e =
    let unit = round_unit b.intent in
    positive (as_number (get_field "amount_minor" e.payload)) >>= (λ amount.
      reason_if (not (nat_eq (amount % unit) 0)) "round_up_positive" >>= (λ positive_reason.
        check_floor (get_field "min_unrounded_minor" b.intent) (some (nat (amount % unit)))
          "min_unrounded_minor_met"
        >>= (λ floor.
            check_ceiling (get_field "max_round_up_minor" b.intent)
              (some (nat (unit - amount % unit))) "within_max_round_up_minor"
            >>= (λ ceiling. pure (
                match_of b (
                  detail_of "chapaa_round_up_offer" b e (positive_reason ++ floor ++ ceiling) (
                    field "computed_round_up_minor" (nat (unit - amount % unit)) (
                      field "computed_unrounded_minor" (nat (amount % unit)) (
                        field "round_unit_minor" (nat unit) (
                          with_truthy "transaction_id" (get_field "transaction_id" e.payload)
                            end))))))))))

unfoldable pub is_goal_acceleration_briefing : MatchableBriefing → Bool
is_goal_acceleration_briefing = has_domain "chapaa.goal_acceleration"

abbrev equals_field : Json → Option Json → Bool
equals_field v none = false
equals_field v (some w) = strict_equal v w

-- A text of the intent that the payload must repeat.
abbrev check_goal : Option Json → Option Json → Check Json
check_goal none given = refused
check_goal (some v) given =
    if truthy (some v) then (if equals_field v given then passed v else refused) else refused

abbrev check_signal : Option Json → Option Json → Check (List String)
check_signal none given = no_reason
check_signal (some v) given =
    if truthy (some v) then reason_if (equals_field v given) "signal_match" else no_reason

unfoldable pub match_goal_acceleration_briefing :
    MatchableBriefing → MatchableEvent → Check BriefingMatch
match_goal_acceleration_briefing b e = do
  goal ← check_goal (get_field "goal_id" b.intent) (get_field "goal_id" e.payload)
  signal ← check_signal (get_field "alert_when" b.intent) (get_field "signal" e.payload)
  pure (
      match_of b (
        detail_of "chapaa_goal_acceleration" b e ("goal_id_match" ∷ signal) (
          field "goal_id" goal (
            with_defined "suggest_amount_minor" (get_field "suggest_amount_minor" b.intent) (
              with_defined "current_pace_minor" (get_field "current_pace_minor" e.payload) (
                with_defined "target_pace_minor" (get_field "target_pace_minor" e.payload) end))))))
