-- ===== src/Tests/Hours.antt =====
-- Time windows at concrete inputs.
use helpan_ai.Prelude.{◌<◌, ◌≤◌, true, none, some, ◌≡◌, ◌↔◌, refl, arith}
use helpan_ai.Actions.Redactor.Texts.{codes, is_digit}
use helpan_ai.Matching.Windows.{minutes_in_window, parse_hhmm, parse_codes}
use helpan_ai.Matching.Windows.Laws.{
  minutes_of_day, minutes_after, minutes_in_window_lem, hhmm, parse_hhmm_lem,
}

ten_past_one : parse_hhmm "01:10" ≡ some 70
unfolding parse_hhmm parse_codes is_digit
ten_past_one = refl

no_such_hour : parse_hhmm "24:00" ≡ none
unfolding parse_hhmm parse_codes is_digit
no_such_hour = refl

-- 01:10 is between 22:00 and 02:00.
minutes_in_window_lem_example :
    (minutes_in_window 70 1320 120 ≡ true) ↔ (minutes_after 1320 70 ≤ minutes_after 1320 120)
minutes_in_window_lem_example =
    minutes_in_window_lem 70 1320 120 (omega arith) (omega arith) (omega arith)

parse_hhmm_lem_example :
    (parse_hhmm "01:10" ≡ some 70) ↔ ((70 < minutes_of_day) × (codes "01:10" ≡ hhmm 70))
parse_hhmm_lem_example = parse_hhmm_lem "01:10" 70
