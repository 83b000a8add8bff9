-- ===== src/Matching/Conditions.antt =====
-- The conditions that the matchers of src/lib/matching share: klokdShiftMatcher.ts and
-- familyDiscoveryMatchers.ts write the same category, distance and time checks, and all of them
-- the same ceiling.
use helpan_ai.Prelude.{ℕ, ◌+◌, ◌*◌, ◌%◌, String, not, ◌&&◌, Option, none, some, List, if◌then◌else◌}
use helpan_ai.Json.{Number, Json, null, str, Fields, get_field}
use helpan_ai.Matching.Types.{
  Platform, Check, passed, refused, thrown, ◌>>=◌, reason_if, no_reason, num_lt, truthy, sub_field,
  as_number, as_non_empty, includes_field, js_string,
}
use helpan_ai.Matching.Windows.{parse_hhmm, minutes_in_window}
use helpan_ai.Store.Tx.{internal}

-- A list of admitted values that the payload's value must be in, where it is given.
abbrev pub check_listed : Option Json → Option Json → String → Check (List String)
check_listed allowed value reason = elim (as_non_empty allowed) [
  | none ↦ no_reason
  | some items ↦ reason_if (includes_field items value) reason
]

-- The four coordinates, if all are numbers.
pub record Legs : Type 0 where
  pub max_km : Number
  pub from_lat : Number
  pub from_lng : Number
  pub to_lat : Number
  pub to_lng : Number

abbrev legs_with :
    Option Number → Option Number → Option Number → Option Number → Option Number → Option Legs
legs_with (some m) (some a) (some b) (some c) (some d) =
    some (record { max_km = m; from_lat = a; from_lng = b; to_lat = c; to_lng = d })
legs_with _ _ _ _ _ = none

unfoldable pub legs_of : Fields → Fields → Option Legs
legs_of intent payload =
    legs_with (as_number (get_field "max_distance_km" intent))
      (as_number (sub_field "lat" (get_field "origin" intent)))
      (as_number (sub_field "lng" (get_field "origin" intent)))
      (as_number (sub_field "lat" (get_field "location" payload)))
      (as_number (sub_field "lng" (get_field "location" payload)))

abbrev pub leg_km : Platform → Legs → Number
leg_km p l = p.distance_km l.from_lat l.from_lng l.to_lat l.to_lng

-- The distance that was checked, if it was.
unfoldable pub check_distance : Platform → Fields → Fields → Check (Option Number)
check_distance p intent payload = elim (legs_of intent payload) [
  | none ↦ passed none
  | some l ↦ if num_lt l.max_km (leg_km p l) then refused else passed (some (leg_km p l))
]

-- `minutesOfDayInZone`.
unfoldable pub minutes_of_day_in_zone : Platform → ℕ → Json → Check ℕ
minutes_of_day_in_zone p instant tz = elim (p.clock_in_zone tz instant) [
  | none ↦ thrown (internal "RangeError")
  | some (hour, minute) ↦ passed ((hour % 24 * 60 + minute) % (24 * 60))
]

-- `payload.start_time ? new Date(payload.start_time) : new Date(nowMs)`.
abbrev pub instant_of : Platform → ℕ → Option Json → Option ℕ
instant_of p now none = some now
instant_of p now (some v) = if truthy (some v) then p.parse_date v else some now

abbrev pub parsed_window : Option ℕ → Option ℕ → Check (ℕ × ℕ)
parsed_window (some s) (some e) = passed (s, e)
parsed_window _ _ = refused

abbrev pub in_window : Platform → Json → Json → Json → ℕ → Check (List String)
in_window p tz start end instant = minutes_of_day_in_zone p instant tz >>= (λ minute.
    parsed_window (parse_hhmm (js_string start)) (parse_hhmm (js_string end))
    >>= (λ (s, e). reason_if (minutes_in_window minute s e) "within_time_window"))

abbrev zone_or_utc : Option Json → Json
zone_or_utc none = str "UTC"
zone_or_utc (some null) = str "UTC"
zone_or_utc (some tz) = tz

abbrev pub window_ends : Option Json → Option Json → Option (Json × Json)
window_ends (some start) (some end) =
    if truthy (some start) && truthy (some end) then some (start, end) else none
window_ends _ _ = none

unfoldable pub check_time_window : Platform → ℕ → Option Json → Option Json → Check (List String)
unfolding minutes_of_day_in_zone
check_time_window p now window time =
    elim (window_ends (sub_field "start" window) (sub_field "end" window)) [
      | none ↦ no_reason
      | some (start, end) ↦ elim (instant_of p now time) [
        | none ↦ refused
        | some instant ↦ in_window p (zone_or_utc (sub_field "tz" window)) start end instant
      ]
    ]

abbrev ceiling_reason : Number → Option Number → String → Check (List String)
ceiling_reason limit none reason = refused
ceiling_reason limit (some value) reason = reason_if (not (num_lt limit value)) reason

-- A ceiling on a number of the payload, where the intent has one.
abbrev pub check_ceiling : Option Json → Option Json → String → Check (List String)
check_ceiling limit value reason = elim (as_number limit) [
  | none ↦ no_reason
  | some l ↦ ceiling_reason l (as_number value) reason
]

abbrev floor_reason : Number → Option Number → String → Check (List String)
floor_reason limit none reason = refused
floor_reason limit (some value) reason = reason_if (not (num_lt value limit)) reason

abbrev pub check_floor : Option Json → Option Json → String → Check (List String)
check_floor limit value reason = elim (as_number limit) [
  | none ↦ no_reason
  | some l ↦ floor_reason l (as_number value) reason
]
