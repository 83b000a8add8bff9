-- ===== src/Matching/Windows/Laws.antt =====
-- Windows as arcs of the day, and the texts that are times of day.
use helpan_ai.Prelude.{
  ℕ, ◌+◌, ◌-◌, ◌*◌, ◌/◌, ◌%◌, ◌≤◌, ◌<◌, String, Bool, true, ◌&&◌, some, List, [], ◌∷◌, ◌≡◌, ◌↔◌, ap,
  ◌∙◌, arith, Bool-cases, inl, inr, nat_eq,
}
use helpan_ai.Actions.Redactor.Texts.{codes, is_digit}
use helpan_ai.Matching.Windows.{
  minutes_in_window, parse_codes, parse_hhmm, is_hour, is_minute, two_digits,
}

abbrev pub minutes_of_day : ℕ
minutes_of_day = 1440

-- How many minutes after one time of day another comes.
abbrev pub minutes_after : ℕ → ℕ → ℕ
minutes_after from to = (to + minutes_of_day - from) % minutes_of_day

-- A minute of the day is in a window exactly where, walking forward from the window's start, it is
-- met no later than the window's end, past midnight too.
pub minutes_in_window_lem :
    (minute start end : ℕ)
    → minute < minutes_of_day
    → start < minutes_of_day
    → end < minutes_of_day
    → (minutes_in_window minute start end ≡ true)
      ↔ (minutes_after start minute ≤ minutes_after start end)
unfolding minutes_in_window
minutes_in_window_lem minute start end m s e = ground arith

-- "HH:MM".
abbrev pub hhmm : ℕ → List ℕ
hhmm n = (48 + n / 60 / 10) ∷ (48 + n / 60 % 10) ∷ 58 ∷ (48 + n % 60 / 10) ∷ (48 + n % 60 % 10) ∷ []

parse_codes-hhmm : (n : ℕ) → n < minutes_of_day → parse_codes (hhmm n) ≡ some n
unfolding parse_codes is_digit
parse_codes-hhmm n h = ground arith

hhmm-two_digits :
    (a b c d n : ℕ)
    → is_hour a b ≡ true
    → is_minute c d ≡ true
    → two_digits a b * 60 + two_digits c d ≡ n
    → (n < minutes_of_day) × (a ∷ b ∷ 58 ∷ c ∷ d ∷ [] ≡ hhmm n)
unfolding is_digit
hhmm-two_digits a b c d n hour minute e =
    let tens : (48 ≤ a) × (48 ≤ b) × (48 ≤ c) × (48 ≤ d) = ground arith in
    let hours : n / 60 ≡ two_digits a b = ground arith in
    let minutes : n % 60 ≡ two_digits c d = ground arith in (ground arith, ground arith)

and_true : (p q : Bool) → (p && q) ≡ true → (p ≡ true) × (q ≡ true)
and_true p q h = (ground arith, ground arith)

parsed : (cs : List ℕ) (n : ℕ) → parse_codes cs ≡ some n → (n < minutes_of_day) × (cs ≡ hhmm n)
unfolding parse_codes
parsed (a ∷ b ∷ colon ∷ c ∷ d ∷ []) n h =
    let well_formed = is_hour a b && (nat_eq colon 58 && is_minute c d) in
    elim (Bool-cases well_formed) [
      | inr bad ↦ absurd (ground arith)
      | inl good ↦
          let (hour, rest) = and_true (is_hour a b) (nat_eq colon 58 && is_minute c d) good in
          let (sep, minute) = and_true (nat_eq colon 58) (is_minute c d) rest in
          let e : two_digits a b * 60 + two_digits c d ≡ n = ground arith in
          let (bound, same) = hhmm-two_digits a b c d n hour minute e in
          let is_colon : colon ≡ 58 = ground arith in
          (bound, ap (λ k. a ∷ b ∷ k ∷ c ∷ d ∷ []) is_colon ∙ same)
    ]
parsed [] n h = absurd (cc)
parsed (a ∷ []) n h = absurd (cc)
parsed (a ∷ b ∷ []) n h = absurd (cc)
parsed (a ∷ b ∷ k ∷ []) n h = absurd (cc)
parsed (a ∷ b ∷ k ∷ c ∷ []) n h = absurd (cc)
parsed (a ∷ b ∷ k ∷ c ∷ d ∷ x ∷ xs) n h = absurd (cc)

-- The texts that are read as a time are exactly the times of day in the form "HH:MM", each read as
-- its minute of the day.
pub parse_hhmm_lem :
    (value : String) (n : ℕ)
    → (parse_hhmm value ≡ some n) ↔ ((n < minutes_of_day) × (codes value ≡ hhmm n))
unfolding parse_hhmm
parse_hhmm_lem value n =
    (λ h. parsed (codes value) n h, λ (h, e). ap parse_codes e ∙ parse_codes-hhmm n h)
