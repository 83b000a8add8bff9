-- ===== src/Matching/Matchers/Klokd.antt =====
-- src/lib/matching/klokdShiftMatcher.ts.
use helpan_ai.Prelude.{ℕ, Bool, ◌++◌}
use helpan_ai.Json.{end, get_field}
use helpan_ai.Matching.Types.{
  Platform, MatchableBriefing, MatchableEvent, BriefingMatch, Check, ◌>>=◌, pure, with_truthy,
}
use helpan_ai.Matching.Conditions.{check_listed, check_distance, check_time_window, check_floor}
use helpan_ai.Matching.Matches.{has_domain, with_distance, reason_of_distance, detail_of, match_of}

unfoldable pub is_klokd_shift_briefing : MatchableBriefing → Bool
is_klokd_shift_briefing = has_domain "klokd.shift_search"

unfoldable pub match_klokd_shift_briefing :
    Platform → ℕ → MatchableBriefing → MatchableEvent → Check BriefingMatch
unfolding check_distance check_time_window
match_klokd_shift_briefing p now b e = do
  listed ←
      check_listed (get_field "categories" b.intent) (get_field "category" e.payload)
        "category_in_whitelist"
  distance ← check_distance p b.intent e.payload
  timely ←
      check_time_window p now (get_field "time_window" b.intent) (get_field "start_time" e.payload)
  paid ←
      check_floor (get_field "min_pay_minor" b.intent) (get_field "pay_minor" e.payload)
        "min_pay_minor_met"
  pure (
      match_of b (
        detail_of "klokd_shift_search" b e (listed ++ reason_of_distance distance ++ timely ++ paid)
          (with_distance distance (with_truthy "shift_id" (get_field "shift_id" e.payload) end))))
