-- ===== src/Events/Service/Written.antt =====
-- What stands in the tables for each match of an event, described row by row.
use helpan_ai.Prelude.{ℕ, suc, String, Option, none, some, List, [], ◌∷◌, ◌++◌, ◌≡◌}
use helpan_ai.Json.{Json, obj, str, Fields, get_field}
use helpan_ai.Time.{to_iso_string}
use helpan_ai.World.{World}
use helpan_ai.Store.Rows.{KafkaOutboxRow, OutboxStatus}
use helpan_ai.Store.Briefings.{BriefingMatchRow, WebhookDeliveryRow, DeliveryStatus}
use helpan_ai.Matching.Types.{BriefingMatch}
use helpan_ai.Events.Service.{IngestEventInput}

module _ (w : World) (input : IngestEventInput) (id : String) (occurred : ℕ)
    (m : BriefingMatch) where
  -- A stored BRIEFING_MATCHED payload of the match.
  abbrev pub IsAnnouncement : Json → Type 0
  IsAnnouncement payload =
      (fields : Fields) × (payload ≡ w.jsonb (obj fields))
      × (get_field "event_type" fields ≡ some (str "BRIEFING_MATCHED"))
      × (get_field "occurred_at" fields ≡ some (str (to_iso_string occurred)))
      × (get_field "account_uuid" fields ≡ some (str m.account_uuid))
      × (get_field "app_id" fields ≡ some (str input.app_id))
      × (get_field "briefing_id" fields ≡ some (str m.briefing_id))
      × (get_field "source_event_id" fields ≡ some (str id))
      × (get_field "match_detail" fields ≡ some (obj m.detail))

  abbrev pub IsMatchRow : BriefingMatchRow → Type 0
  IsMatchRow row =
      (row.briefing_id ≡ m.briefing_id)
      × (row.event_id ≡ id)
      × (row.account_uuid ≡ m.account_uuid)
      × (row.match_confidence ≡ m.confidence)
      × (row.match_detail ≡ w.jsonb (obj m.detail))

  abbrev pub IsDelivery : String → WebhookDeliveryRow → Type 0
  IsDelivery to row =
      (row.target_url ≡ to)
      × (row.app_id ≡ input.app_id)
      × (row.event_type ≡ "BRIEFING_MATCHED")
      × (row.event_id ≡ id)
      × (row.status ≡ DeliveryStatus.pending)
      × (row.attempt_count ≡ 0)
      × (row.next_attempt_at ≡ some occurred)
      × IsAnnouncement row.payload

  -- The match's row names the delivery, if the app has a webhook.
  abbrev pub IsDelivered : Option String → Option String → List WebhookDeliveryRow → Type 0
  IsDelivered none link deliveries = (link ≡ none) × (deliveries ≡ [])
  IsDelivered (some to) link deliveries =
      (row : WebhookDeliveryRow) × (deliveries ≡ row ∷ [])
      × (link ≡ some row.id)
      × IsDelivery to row

  abbrev pub IsOutboxEntry : KafkaOutboxRow → Type 0
  IsOutboxEntry row =
      (row.topic ≡ "helpan.briefing.events")
      × (row.partition_key ≡ m.account_uuid)
      × (row.status ≡ OutboxStatus.pending)
      × (row.attempts ≡ 0)
      × IsAnnouncement row.payload

module _ (w : World) (input : IngestEventInput) (id : String) (url : Option String)
    (times : ℕ → ℕ) where
  -- The rows of the matches from the i-th on, in their order.
  abbrev pub AreWritten :
      ℕ
      → List BriefingMatch
      → List BriefingMatchRow
      → List WebhookDeliveryRow
      → List KafkaOutboxRow
      → Type 0
  AreWritten i [] rows deliveries entries = (rows ≡ []) × ((deliveries ≡ []) × (entries ≡ []))
  AreWritten i (m ∷ ms) rows deliveries entries =
      (row : BriefingMatchRow) × (rows' : List BriefingMatchRow) × (here : List WebhookDeliveryRow)
      × (deliveries' : List WebhookDeliveryRow) × (entry : KafkaOutboxRow) × (entries' : List
          KafkaOutboxRow)
      × (rows ≡ row ∷ rows')
      × (deliveries ≡ here ++ deliveries')
      × (entries ≡ entry ∷ entries')
      × IsMatchRow w input id (times i) m row
      × IsDelivered w input id (times i) m url row.webhook_delivery_id here
      × IsOutboxEntry w input id (times i) m entry
      × AreWritten (suc i) ms rows' deliveries' entries'
