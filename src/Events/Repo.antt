-- ===== src/Events/Repo.antt =====
-- src/modules/events/repo.ts.
use helpan_ai.Prelude.{
  ℕ, String, Bool, true, ◌&&◌, ◌||◌, Option, none, some, List, [], ◌∷◌, ◌++◌, map, ◌==◌, ltb, any,
  find, select, update_where, if◌then◌else◌,
}
use helpan_ai.Json.{Json, obj, Fields}
use helpan_ai.World.{World}
use helpan_ai.Store.{Db}
use helpan_ai.Store.Briefings.{
  BriefingRow, EventRow, MatchStatus, BriefingMatchRow, WebhookDeliveryRow, DeliveryStatus,
  briefing_is_active,
}
use helpan_ai.Store.Tx.{Tx, ok, err, internal}
use helpan_ai.Matching.Types.{MatchableBriefing, MatchConfidence}
use helpan_ai.Briefings.Service.{type_text}

pub record InsertEventInput : Type 0 where
  pub id : String
  pub event_type : String
  pub app_id : String
  pub account_uuid : Option String
  pub payload : Fields
  pub published_at : ℕ
  pub idempotency_key : String
  pub app_correlation_id : Option String

unfoldable pub event_row : World → ℕ → InsertEventInput → EventRow
event_row w tx_now input = record {
  id = input.id;
  event_type = input.event_type;
  app_id = input.app_id;
  account_uuid = input.account_uuid;
  payload = w.jsonb (obj input.payload);
  published_at = input.published_at;
  ingested_at = tx_now;
  match_status = MatchStatus.pending;
  match_count = 0;
  app_correlation_id = input.app_correlation_id;
  idempotency_key = input.idempotency_key;
}

abbrev pub has_key : String → String → EventRow → Bool
has_key app key row = row.app_id == app && row.idempotency_key == key

-- `events_ingested_pkey`, and the unique index on (idempotency_key, app_id).
abbrev pub event_conflicts : InsertEventInput → EventRow → Bool
event_conflicts input row = row.id == input.id || has_key input.app_id input.idempotency_key row

unfoldable pub insert_event : World → ℕ → InsertEventInput → Tx Db EventRow
unfolding event_row
insert_event w tx_now input db =
    if any (event_conflicts input) db.events_ingested
    then err (internal "duplicate key: events_ingested")
    else ok (
      event_row w tx_now input,
      record db { events_ingested = db.events_ingested ++ event_row w tx_now input ∷ [] },
    )

unfoldable pub find_event_by_idempotency_key : List EventRow → String → String → Option EventRow
find_event_by_idempotency_key rows app key = find (has_key app key) rows

abbrev pub unexpired : ℕ → Option ℕ → Bool
unexpired now none = true
unexpired now (some expires) = ltb now expires

abbrev pub of_account : Option String → String → Bool
of_account none account = true
of_account (some a) account = a == "" || account == a

abbrev pub is_candidate : String → Option String → ℕ → BriefingRow → Bool
is_candidate app account now row =
    row.app_id == app
    && (briefing_is_active row.status
        && (unexpired now row.expires_at && of_account account row.account_uuid))

unfoldable pub matchable : BriefingRow → MatchableBriefing
matchable row = record {
  id = row.id;
  account_uuid = row.account_uuid;
  app_id = row.app_id;
  briefing_type = type_text row.briefing_type;
  intent = row.intent;
}

unfoldable pub list_active_briefings_for_event :
    List BriefingRow → String → Option String → ℕ → List MatchableBriefing
unfolding matchable
list_active_briefings_for_event rows app account now =
    map matchable (select (is_candidate app account now) rows)

pub record InsertBriefingMatchInput : Type 0 where
  pub id : String
  pub briefing_id : String
  pub event_id : String
  pub account_uuid : String
  pub match_confidence : MatchConfidence
  pub match_detail : Fields
  pub webhook_delivery_id : Option String

unfoldable pub match_row : World → ℕ → InsertBriefingMatchInput → BriefingMatchRow
match_row w tx_now input = record {
  id = input.id;
  briefing_id = input.briefing_id;
  event_id = input.event_id;
  account_uuid = input.account_uuid;
  match_confidence = input.match_confidence;
  match_detail = w.jsonb (obj input.match_detail);
  webhook_delivery_id = input.webhook_delivery_id;
  created_at = tx_now;
}

-- The ids of matches and deliveries are drawn for them, and no key is checked.
unfoldable pub insert_briefing_match : World → ℕ → InsertBriefingMatchInput → Db → Db
unfolding match_row
insert_briefing_match w tx_now input db = record db {
  briefing_matches = db.briefing_matches ++ match_row w tx_now input ∷ [];
}

pub record EnqueueWebhookDeliveryInput : Type 0 where
  pub id : String
  pub app_id : String
  pub event_type : String
  pub event_id : String
  pub payload : Json
  pub target_url : String
  pub scheduled_at : ℕ

unfoldable pub delivery_row : World → ℕ → EnqueueWebhookDeliveryInput → WebhookDeliveryRow
delivery_row w tx_now input = record {
  id = input.id;
  app_id = input.app_id;
  event_type = input.event_type;
  event_id = input.event_id;
  payload = w.jsonb input.payload;
  target_url = input.target_url;
  attempt_count = 0;
  last_attempt_at = none;
  next_attempt_at = some input.scheduled_at;
  status = DeliveryStatus.pending;
  delivered_at = none;
  created_at = tx_now;
}

unfoldable pub enqueue_webhook_delivery : World → ℕ → EnqueueWebhookDeliveryInput → Db → Db
unfolding delivery_row
enqueue_webhook_delivery w tx_now input db = record db {
  webhook_deliveries = db.webhook_deliveries ++ delivery_row w tx_now input ∷ [];
}

abbrev pub has_event_id : String → EventRow → Bool
has_event_id id row = row.id == id

unfoldable pub closed_event : ℕ → EventRow → EventRow
closed_event n row = record row {
  match_status = if ltb 0 n then MatchStatus.matched else MatchStatus.no_match;
  match_count = n;
}

unfoldable pub mark_event_match_status : String → ℕ → Db → Db
unfolding closed_event
mark_event_match_status id n db = record db {
  events_ingested = update_where (has_event_id id) (closed_event n) db.events_ingested;
}
