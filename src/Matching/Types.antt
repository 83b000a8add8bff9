-- ===== src/Matching/Types.antt =====
-- The types of src/lib/matching/engine.ts, and what its matchers use of JavaScript on JSON values.
use helpan_ai.Prelude.{
  ℕ, String, Bool, true, false, not, ◌&&◌, ◌||◌, Option, none, some, List, [], ◌∷◌, ◌==◌, ltb,
  nat_eq, any, if◌then◌else◌,
}
use helpan_ai.Json.{
  Number, pos, negsuc, Json, null, bool, num, str, arr, obj, Items, nil, cons, Fields, field,
  get_field,
}
use helpan_ai.Json.Stringify.{stringify, join}
use helpan_ai.Store.Tx.{RailError, internal}

pub record MatchableBriefing : Type 0 where
  pub id : String
  pub account_uuid : String
  pub app_id : String
  pub briefing_type : String
  pub intent : Fields

pub record MatchableEvent : Type 0 where
  pub id : String
  pub event_type : String
  pub app_id : String
  pub account_uuid : Option String
  pub payload : Fields

pub data MatchConfidence : Type 0 where
  high medium low : MatchConfidence

pub record BriefingMatch : Type 0 where
  pub briefing_id : String
  pub account_uuid : String
  pub confidence : MatchConfidence
  pub detail : Fields

-- What the matchers call and the program does not implement. `haversineKm` is floating point, so
-- the distance of two points stands here too; numbers are the integers of Json.
pub record Platform : Type 0 where
  -- `new Date(value)`: `none` is an invalid date.
  pub parse_date : Json → Option ℕ
  -- The hour and minute that Intl.DateTimeFormat prints for a time zone; `none` is its RangeError.
  pub clock_in_zone : Json → ℕ → Option (ℕ × ℕ)
  pub distance_km : Number → Number → Number → Number → Number
  pub to_lower_case : String → String

-- What a step of a matcher does: it goes on, returns null, or throws.
pub data Check {ℓ} (A : Type ℓ) : Type ℓ where
  passed : A → Check A
  refused : Check A
  thrown : RailError → Check A

module _ {ℓ} {A B : Type ℓ} where
  infixl 5 ◌>>=◌
  abbrev pub ◌>>=◌ : Check A → (A → Check B) → Check B
  ◌>>=◌ (passed a) f = f a
  ◌>>=◌ refused f = refused
  ◌>>=◌ (thrown e) f = thrown e

abbrev pub pure {ℓ} : {A : Type ℓ} → A → Check A
pure a = passed a

abbrev pub type_error : RailError
type_error = internal "TypeError"

-- A reason where the test holds, else `return null`.
abbrev pub reason_if : Bool → String → Check (List String)
reason_if true reason = passed (reason ∷ [])
reason_if false reason = refused

abbrev pub no_reason : Check (List String)
no_reason = passed []

-- `a < b`.
abbrev pub num_lt : Number → Number → Bool
num_lt (pos a) (pos b) = ltb a b
num_lt (pos a) (negsuc b) = false
num_lt (negsuc a) (pos b) = true
num_lt (negsuc a) (negsuc b) = ltb b a

abbrev pub num_eq : Number → Number → Bool
num_eq (pos a) (pos b) = nat_eq a b
num_eq (negsuc a) (negsuc b) = nat_eq a b
num_eq _ _ = false

abbrev bool_eq : Bool → Bool → Bool
bool_eq true b = b
bool_eq false b = not b

-- `a === b` for values of two documents: arrays and objects are never the same one.
abbrev pub strict_equal : Json → Json → Bool
strict_equal null null = true
strict_equal (bool a) (bool b) = bool_eq a b
strict_equal (num a) (num b) = num_eq a b
strict_equal (str a) (str b) = a == b
strict_equal _ _ = false

-- `!!value`; `none` is undefined.
abbrev pub truthy : Option Json → Bool
truthy none = false
truthy (some null) = false
truthy (some (bool b)) = b
truthy (some (num n)) = not (num_eq n (pos 0))
truthy (some (str s)) = not (s == "")
truthy (some (arr items)) = true
truthy (some (obj fields)) = true

-- A property of a value that may be absent or no object.
abbrev pub sub_field : String → Option Json → Option Json
sub_field key (some (obj fields)) = get_field key fields
sub_field key _ = none

-- `typeof value === 'number'`.
abbrev pub as_number : Option Json → Option Number
as_number (some (num n)) = some n
as_number _ = none

-- A non-empty array, `Array.isArray(v) && v.length > 0`.
abbrev pub as_non_empty : Option Json → Option Items
as_non_empty (some (arr (cons v rest))) = some (cons v rest)
as_non_empty _ = none

-- `items.includes(value)`.
unfoldable pub includes : Items → Json → Bool
includes nil value = false
includes (cons v rest) value = strict_equal v value || includes rest value

abbrev pub includes_field : Items → Option Json → Bool
includes_field items none = false
includes_field items (some v) = truthy (some v) && includes items v

-- `String(value)`; null is the empty text inside an array.
unfoldable mutual
  unfolding stringify join

  pub js_string : Json → String
  js_string null = "null"
  js_string (bool b) = stringify (bool b)
  js_string (num n) = stringify (num n)
  js_string (str s) = s
  js_string (arr items) = join "," (js_strings items)
  js_string (obj fields) = "[object Object]"

  pub js_strings : Items → List String
  js_strings nil = []
  js_strings (cons v rest) = js_element v ∷ js_strings rest

  pub js_element : Json → String
  js_element null = ""
  js_element (bool b) = stringify (bool b)
  js_element (num n) = stringify (num n)
  js_element (str s) = s
  js_element (arr items) = join "," (js_strings items)
  js_element (obj fields) = "[object Object]"

-- The names that a plain object inherits.
abbrev pub inherited_names : List String
inherited_names =
    "constructor" ∷ "__proto__" ∷ "toString" ∷ "toLocaleString" ∷ "valueOf" ∷ "hasOwnProperty"
    ∷ "isPrototypeOf" ∷ "propertyIsEnumerable" ∷ "__defineGetter__" ∷ "__defineSetter__"
    ∷ "__lookupGetter__" ∷ "__lookupSetter__" ∷ []

unfoldable pub is_inherited : String → Bool
is_inherited name = any (λ k. k == name) inherited_names

-- Spreads of conditional members: `...(v ? { key: v } : {})`, and of members that are defined.
abbrev pub with_truthy : String → Option Json → Fields → Fields
with_truthy key none rest = rest
with_truthy key (some v) rest = if truthy (some v) then field key v rest else rest

abbrev pub with_defined : String → Option Json → Fields → Fields
with_defined key none rest = rest
with_defined key (some v) rest = field key v rest
