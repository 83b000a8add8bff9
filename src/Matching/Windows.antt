-- ===== src/Matching/Windows.antt =====
-- The daily time windows of src/lib/matching/klokdShiftMatcher.ts.
pub mod Laws
use helpan_ai.Prelude.{
  ℕ, ◌+◌, ◌-◌, ◌*◌, String, Bool, true, false, ◌&&◌, ◌||◌, Option, none, some, List, [], ◌∷◌, leb,
  nat_eq, if◌then◌else◌,
}
use helpan_ai.Actions.Redactor.Texts.{codes, is_digit}

-- `[01]\d|2[0-3]`.
abbrev pub is_hour : ℕ → ℕ → Bool
is_hour a b =
    ((nat_eq a 48 || nat_eq a 49) && is_digit b) || (nat_eq a 50 && (leb 48 b && leb b 51))

-- `[0-5]\d`.
abbrev pub is_minute : ℕ → ℕ → Bool
is_minute a b = (leb 48 a && leb a 53) && is_digit b

-- `Number` of two digits.
abbrev pub two_digits : ℕ → ℕ → ℕ
two_digits a b = 10 * (a - 48) + (b - 48)

unfoldable pub parse_codes : List ℕ → Option ℕ
unfolding is_digit
parse_codes (a ∷ b ∷ colon ∷ c ∷ d ∷ []) =
    if is_hour a b && (nat_eq colon 58 && is_minute c d)
    then some (two_digits a b * 60 + two_digits c d)
    else none
parse_codes _ = none

unfoldable pub parse_hhmm : String → Option ℕ
unfolding parse_codes
parse_hhmm value = parse_codes (codes value)

unfoldable pub minutes_in_window : ℕ → ℕ → ℕ → Bool
minutes_in_window minute start end =
    if leb start end then leb start minute && leb minute end else leb start minute || leb minute end
