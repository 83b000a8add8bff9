-- ===== src/Matching/Matches.antt =====
-- How the matchers of src/lib/matching read their domain and build a match.
use helpan_ai.Prelude.{String, Bool, false, Option, none, some, List, [], ◌∷◌}
use helpan_ai.Json.{Number, num, str, arr, Fields, field, get_field, string_list}
use helpan_ai.Matching.Types.{
  MatchableBriefing, MatchableEvent, BriefingMatch, MatchConfidence, strict_equal,
}

-- `intent['domain'] === domain`.
abbrev pub has_domain : String → MatchableBriefing → Bool
has_domain domain b = elim (get_field "domain" b.intent) [
  | none ↦ false
  | some v ↦ strict_equal v (str domain)
]

-- `...(distanceKm !== null ? { distance_km: … } : {})`; whole kilometres need no rounding.
abbrev pub with_distance : Option Number → Fields → Fields
with_distance none rest = rest
with_distance (some km) rest = field "distance_km" (num km) rest

abbrev pub reason_of_distance : Option Number → List String
reason_of_distance none = []
reason_of_distance (some km) = "within_max_distance_km" ∷ []

-- The members that every detail has in front.
abbrev pub detail_of : String → MatchableBriefing → MatchableEvent → List String → Fields → Fields
detail_of kind b e reasons rest = field "match_kind" (str kind) (
    field "briefing_type" (str b.briefing_type)
      (field "event_type" (str e.event_type) (field "reasons" (arr (string_list reasons)) rest)))

abbrev pub match_of : MatchableBriefing → Fields → BriefingMatch
match_of b detail = record {
  briefing_id = b.id;
  account_uuid = b.account_uuid;
  confidence = MatchConfidence.high;
  detail = detail;
}
