-- ===== src/Actions/Redactor/Texts.antt =====
-- The regular expressions of src/modules/actions/payloadRedactor.ts, as tests on code points.
use Prim.Native.Char.{code}
use helpan_ai.Prelude.{
  ℕ, zero, suc, ◌+◌, String, Bool, true, false, not, ◌&&◌, ◌||◌, List, [], ◌∷◌, leb, ltb, nat_eq,
  length, any, Option, none, some, if◌then◌else◌,
}

abbrev pub codes : String → List ℕ
codes String.[] = []
codes (String.◌∷◌ c s) = code c ∷ codes s

-- `s.length`: a code point beyond the basic plane is two units.
unfoldable pub utf16_units : List ℕ → ℕ
utf16_units [] = 0
utf16_units (c ∷ cs) = (if ltb 65_535 c then 2 else 1) + utf16_units cs

unfoldable pub utf16_length : String → ℕ
unfolding utf16_units
utf16_length s = utf16_units (codes s)

-- `\s`.
unfoldable pub is_space : ℕ → Bool
is_space c =
    (leb 9 c && leb c 13)
    || nat_eq c 32
    || nat_eq c 160
    || nat_eq c 5760
    || (leb 8192 c && leb c 8202)
    || nat_eq c 8232
    || nat_eq c 8233
    || nat_eq c 8239
    || nat_eq c 8287
    || nat_eq c 12_288
    || nat_eq c 65_279

unfoldable pub is_digit : ℕ → Bool
is_digit c = leb 48 c && leb c 57

-- The `i` flag folds ASCII letters.
abbrev lower : ℕ → ℕ
lower c = if leb 65 c && leb c 90 then c + 32 else c

starts_with : List ℕ → List ℕ → Bool
starts_with [] cs = true
starts_with (w ∷ ws) [] = false
starts_with (w ∷ ws) (c ∷ cs) = nat_eq (lower c) w && starts_with ws cs

contains : List ℕ → List ℕ → Bool
unfolding starts_with
contains word [] = starts_with word []
contains word (c ∷ cs) = starts_with word (c ∷ cs) || contains word cs

abbrev pub pii_words : List String
pii_words =
    "phone" ∷ "msisdn" ∷ "mobile" ∷ "email" ∷ "pan" ∷ "card" ∷ "cvv" ∷ "pin" ∷ "password" ∷ "secret"
    ∷ "token" ∷ "ssn" ∷ "national_id" ∷ "passport" ∷ "address" ∷ "dob" ∷ "birth" ∷ []

-- PII_KEY_REGEX.
unfoldable pub is_pii_key : String → Bool
unfolding contains
is_pii_key k = any (λ word. contains (codes word) (codes k)) pii_words

-- `[^\s@]`.
abbrev plain : ℕ → Bool
plain c = not (is_space c) && not (nat_eq c 64)

all_plain : List ℕ → Bool
unfolding is_space
all_plain [] = true
all_plain (c ∷ cs) = plain c && all_plain cs

dot_before_last : List ℕ → Bool
dot_before_last [] = false
dot_before_last (c ∷ []) = false
dot_before_last (c ∷ d ∷ cs) = nat_eq c 46 || dot_before_last (d ∷ cs)

-- `[^\s@]+\.[^\s@]+`: a dot that is neither the first nor the last character.
domain : List ℕ → Bool
unfolding all_plain dot_before_last
domain [] = false
domain (c ∷ cs) = all_plain (c ∷ cs) && dot_before_last cs

local_part : Bool → List ℕ → Bool
unfolding domain is_space
local_part started [] = false
local_part started (c ∷ cs) = elim (nat_eq c 64) [
  | true ↦ started && domain cs
  | false ↦ not (is_space c) && local_part true cs
]

-- EMAIL_VALUE_REGEX.
unfoldable pub is_email : String → Bool
unfolding local_part
is_email s = local_part false (codes s)

drop_spaces : List ℕ → List ℕ
unfolding is_space
drop_spaces [] = []
drop_spaces (c ∷ cs) = let rest = drop_spaces cs in if is_space c then rest else c ∷ rest

-- `s.replaceAll(/\s/g, '')`.
unfoldable pub without_spaces : String → List ℕ
unfolding drop_spaces
without_spaces s = drop_spaces (codes s)

all_digits : List ℕ → Bool
unfolding is_digit
all_digits [] = true
all_digits (c ∷ cs) = is_digit c && all_digits cs

-- PAN_VALUE_REGEX.
unfoldable pub is_pan : List ℕ → Bool
unfolding all_digits
is_pan cs = all_digits cs && leb 13 (length cs) && leb (length cs) 19

abbrev drop_plus : List ℕ → List ℕ
drop_plus [] = []
drop_plus (c ∷ cs) = if nat_eq c 43 then cs else c ∷ cs

abbrev drop_separator : List ℕ → List ℕ
drop_separator [] = []
drop_separator (c ∷ cs) = if is_space c || nat_eq c 45 then cs else c ∷ cs

abbrev after_digit : List ℕ → Option (List ℕ)
after_digit [] = none
after_digit (c ∷ cs) = if is_digit c then some (drop_separator cs) else none

-- `(?:\+?\d[\s-]?){n,}` at the front: no character can be read in two ways, so that the first
-- reading is the only one.
phone_here : ℕ → List ℕ → Bool
unfolding is_digit is_space
phone_here zero cs = true
phone_here (suc n) cs = elim (after_digit (drop_plus cs)) [
  | none ↦ false
  | some rest ↦ phone_here n rest
]

-- The look-behind: a match does not start right after a digit.
phone_from : Bool → List ℕ → Bool
unfolding phone_here is_digit
phone_from after_a_digit [] = false
phone_from after_a_digit (c ∷ cs) =
    (not after_a_digit && phone_here 8 (c ∷ cs)) || phone_from (is_digit c) cs

-- PHONE_VALUE_REGEX, which is searched for anywhere in the text.
unfoldable pub is_phone : String → Bool
unfolding phone_from
is_phone s = phone_from false (codes s)
