-- ===== src/Store/Briefings.antt =====
-- The rows of briefings, events, matches and webhook deliveries (src/db/schema).
use helpan_ai.Prelude.{ℕ, String, Bool, true, false, Option}
use helpan_ai.Json.{Json, Fields}
use helpan_ai.Matching.Types.{MatchConfidence}

pub data BriefingType : Type 0 where
  alert standing_basket scheduled_action threshold_watch : BriefingType

pub data BriefingStatus : Type 0 where
  active paused expired revoked : BriefingStatus

-- `created_at` and `updated_at` count microseconds, as NOW() gives them; the other instants come
-- from a JavaScript Date and count milliseconds.
pub record BriefingRow : Type 0 where
  pub id : String
  pub account_uuid : String
  pub app_id : String
  pub agent_id : Option String
  pub briefing_type : BriefingType
  pub status : BriefingStatus
  pub intent : Fields
  pub expires_at : Option ℕ
  pub app_correlation_id : Option String
  pub created_at : ℕ
  pub updated_at : ℕ
  pub revoked_at : Option ℕ

pub data MatchStatus : Type 0 where
  pending matched no_match dlq : MatchStatus

pub record EventRow : Type 0 where
  pub id : String
  pub event_type : String
  pub app_id : String
  pub account_uuid : Option String
  pub payload : Json
  pub published_at : ℕ
  pub ingested_at : ℕ
  pub match_status : MatchStatus
  pub match_count : ℕ
  pub app_correlation_id : Option String
  pub idempotency_key : String

pub record BriefingMatchRow : Type 0 where
  pub id : String
  pub briefing_id : String
  pub event_id : String
  pub account_uuid : String
  pub match_confidence : MatchConfidence
  pub match_detail : Json
  pub webhook_delivery_id : Option String
  pub created_at : ℕ

pub data DeliveryStatus : Type 0 where
  pending delivered abandoned : DeliveryStatus

pub record WebhookDeliveryRow : Type 0 where
  pub id : String
  pub app_id : String
  pub event_type : String
  pub event_id : String
  pub payload : Json
  pub target_url : String
  pub attempt_count : ℕ
  pub last_attempt_at : Option ℕ
  pub next_attempt_at : Option ℕ
  pub status : DeliveryStatus
  pub delivered_at : Option ℕ
  pub created_at : ℕ

abbrev pub briefing_is_active : BriefingStatus → Bool
briefing_is_active BriefingStatus.active = true
briefing_is_active _ = false

abbrev pub briefing_is_revoked : BriefingStatus → Bool
briefing_is_revoked BriefingStatus.revoked = true
briefing_is_revoked _ = false

abbrev pub delivery_is_pending : DeliveryStatus → Bool
delivery_is_pending DeliveryStatus.pending = true
delivery_is_pending _ = false
