-- ===== src/Events/Service.antt =====
-- `ingestEvent` of src/modules/events/service.ts.
pub mod Written
pub mod Matches
pub mod Ingest
pub mod Candidates
pub mod Revoked
use Prim.Native.String.{◌++◌ as concat}
use helpan_ai.Prelude.{
  ℕ, suc, ◌+◌, String, Bool, true, false, Option, none, some, List, [], ◌∷◌, map, ◌==◌, length,
  is_some, ◌or_else◌, if◌then◌else◌,
}
use helpan_ai.Json.{
  Json, null, bool, str, arr, obj, Items, Fields, end, field, nat, string_list, with_text,
}
use helpan_ai.Time.{to_iso_string}
use helpan_ai.World.{World}
use helpan_ai.Store.{Db}
use helpan_ai.Store.Briefings.{EventRow}
use helpan_ai.Store.Tx.{Result, ok, err, internal, Tx, ◌>>=◌, ◌>>◌, pure, throw, lift, gets, modify}
use helpan_ai.Audit.{append_audit_entry}
use helpan_ai.Audit.Hash.{AuditEntry, blank_entry}
use helpan_ai.Outbox.Enqueue.{EnqueueOutboxInput, enqueue_outbox_entry}
use helpan_ai.Authorities.Claims.{truthy_text}
use helpan_ai.Matching.Types.{Platform, MatchableEvent, MatchConfidence, BriefingMatch}
use helpan_ai.Matching.Engine.{Pushed, real, alien, match_event_against_briefings}
use helpan_ai.Events.Repo.{
  InsertEventInput, insert_event, find_event_by_idempotency_key, list_active_briefings_for_event,
  InsertBriefingMatchInput, insert_briefing_match, EnqueueWebhookDeliveryInput,
  enqueue_webhook_delivery, mark_event_match_status,
}

pub record IngestEventInput : Type 0 where
  pub event_type : String
  pub app_id : String
  pub account_uuid : Option String
  pub payload : Fields
  pub published_at : Option ℕ
  pub app_correlation_id : Option String
  pub idempotency_key : String
  pub request_id : String
  pub traceparent : Option String

pub record IngestEventResult : Type 0 where
  pub event_id : String
  pub accepted_at : ℕ
  pub match_count : ℕ
  pub replayed : Bool

-- The resolver is injected; the one that reads the environment is below.
pub record IngestEventDeps : Type 0 where
  pub platform : Platform
  pub resolve : String → Option String

-- The readings of the clock: before the transaction, for the candidates, in the matchers, and for
-- each match in turn.
pub record IngestClocks : Type 0 where
  pub received : ℕ
  pub selected : ℕ
  pub matched : ℕ
  pub occurred : ℕ → ℕ

-- `HELPAN_WEBHOOK_URL_<APP>`; an empty value is none.
unfoldable pub create_env_webhook_target_resolver :
    (String → String) → (String → Option String) → String → Option String
create_env_webhook_target_resolver to_upper_case env app =
    truthy_text (env (concat "HELPAN_WEBHOOK_URL_" (to_upper_case app)))

abbrev pub event_input : IngestClocks → IngestEventInput → String → InsertEventInput
event_input clocks input id = record {
  id = id;
  event_type = input.event_type;
  app_id = input.app_id;
  account_uuid = input.account_uuid;
  payload = input.payload;
  published_at = input.published_at or_else clocks.received;
  idempotency_key = input.idempotency_key;
  app_correlation_id = input.app_correlation_id;
}

abbrev pub matchable_event : IngestEventInput → String → MatchableEvent
matchable_event input id = record {
  id = id;
  event_type = input.event_type;
  app_id = input.app_id;
  account_uuid = input.account_uuid;
  payload = input.payload;
}

abbrev confidence_text : MatchConfidence → String
confidence_text MatchConfidence.high = "high"
confidence_text MatchConfidence.medium = "medium"
confidence_text MatchConfidence.low = "low"

unfoldable pub briefing_matched_payload : IngestEventInput → String → ℕ → BriefingMatch → Json
briefing_matched_payload input id occurred m = obj (
    field "event_id" (str id) (
      field "event_type" (str "BRIEFING_MATCHED") (
        field "schema_version" (str "1.0") (
          field "occurred_at" (str (to_iso_string occurred)) (
            field "account_uuid" (str m.account_uuid) (
              field "app_id" (str input.app_id) (
                field "briefing_id" (str m.briefing_id) (
                  field "source_event_id" (str id) (
                    field "match_confidence" (str (confidence_text m.confidence)) (
                      field "match_detail" (obj m.detail)
                        (with_text "traceparent" (truthy_text input.traceparent) end)))))))))))

mint : World → Tx Db String
mint w db = ok (w.ulid db.minted, record db { minted = db.minted + 1 })

abbrev pub delivery_input :
    IngestEventInput → String → ℕ → BriefingMatch → String → String → EnqueueWebhookDeliveryInput
delivery_input input id occurred m url delivery = record {
  id = delivery;
  app_id = input.app_id;
  event_type = "BRIEFING_MATCHED";
  event_id = id;
  payload = briefing_matched_payload input id occurred m;
  target_url = url;
  scheduled_at = occurred;
}

-- The delivery's id, if the app has a webhook; its ULID is drawn first.
unfoldable pub deliver :
    World
    → ℕ
    → IngestEventInput
    → String
    → ℕ
    → BriefingMatch
    → Option String
    → Tx Db (Option String)
unfolding mint
deliver w tx_now input id occurred m none = pure none
deliver w tx_now input id occurred m (some url) = do
  ulid ← mint w
  modify (
      enqueue_webhook_delivery w tx_now
        (delivery_input input id occurred m url (concat "whd_" ulid)))
  pure (some (concat "whd_" ulid))

abbrev pub match_input : String → BriefingMatch → String → Option String → InsertBriefingMatchInput
match_input id m match_id delivery = record {
  id = match_id;
  briefing_id = m.briefing_id;
  event_id = id;
  account_uuid = m.account_uuid;
  match_confidence = m.confidence;
  match_detail = m.detail;
  webhook_delivery_id = delivery;
}

abbrev pub matched_event : IngestEventInput → String → ℕ → BriefingMatch → EnqueueOutboxInput
matched_event input id occurred m = record {
  topic = "helpan.briefing.events";
  partition_key = m.account_uuid;
  payload = briefing_matched_payload input id occurred m;
  headers = none;
}

-- One round of the loop. A value that is no match has no briefing id, which the column refuses.
unfoldable pub record_match :
    World → ℕ → IngestEventInput → String → ℕ → Option String → Pushed → Tx Db BriefingMatch
unfolding deliver mint
record_match w tx_now input id occurred url alien =
    throw (internal "null value: briefing_matches.briefing_id")
record_match w tx_now input id occurred url (real m) = do
  delivery ← deliver w tx_now input id occurred m url
  ulid ← mint w
  modify (insert_briefing_match w tx_now (match_input id m (concat "bmt_" ulid) delivery))
  enqueue_outbox_entry w tx_now (matched_event input id occurred m)
  pure m

unfoldable pub record_matches :
    World
    → ℕ
    → IngestEventInput
    → String
    → IngestClocks
    → Option String
    → ℕ
    → List Pushed
    → Tx Db (List BriefingMatch)
unfolding record_match
record_matches w tx_now input id clocks url i [] = pure []
record_matches w tx_now input id clocks url i (m ∷ ms) =
    record_match w tx_now input id (clocks.occurred i) url m >>= (λ recorded.
      record_matches w tx_now input id clocks url (suc i) ms >>= (λ rest. pure (recorded ∷ rest)))

unfoldable pub ingested_entry : IngestEventInput → String → Bool → List BriefingMatch → AuditEntry
ingested_entry input id webhooks matches = record blank_entry {
  actor_type = "system";
  actor_id = concat "app:" input.app_id;
  account_uuid = truthy_text input.account_uuid;
  action = "event.ingested";
  resource_type = some "event";
  resource_id = some id;
  app_id = some input.app_id;
  request_id = input.request_id;
  traceparent = truthy_text input.traceparent;
  outcome = "success";
  initiated_by = some "system";
  detail = some (
      obj (
        field "event_type" (str input.event_type) (
          field "match_count" (nat (length matches)) (
            field "matched_briefings"
              (arr (string_list (map (λ (m : BriefingMatch). m.briefing_id) matches)))
              (field "webhook_enqueued" (bool webhooks) end)))));
}

abbrev matches_of :
    IngestEventDeps → IngestClocks → IngestEventInput → String → Db → Result (List Pushed)
matches_of deps clocks input id db =
    match_event_against_briefings deps.platform clocks.matched (matchable_event input id)
      (list_active_briefings_for_event db.briefings input.app_id input.account_uuid clocks.selected)

-- What follows the insert of the event.
unfoldable pub process_event :
    World
    → IngestEventDeps
    → IngestClocks
    → ℕ
    → IngestEventInput
    → EventRow
    → Tx Db IngestEventResult
unfolding record_matches
process_event w deps clocks tx_now input event = do
  found ← gets (matches_of deps clocks input event.id)
  pushed ← lift found
  let url = deps.resolve input.app_id
  matches ← record_matches w tx_now input event.id clocks url 0 pushed
  modify (mark_event_match_status event.id (length matches))
  append_audit_entry w tx_now (ingested_entry input event.id (is_some url) matches)
  pure (record {
    event_id = event.id;
    accepted_at = event.ingested_at;
    match_count = length matches;
    replayed = false;
  })

unfoldable pub ingest_new :
    World → IngestEventDeps → IngestClocks → ℕ → IngestEventInput → Tx Db IngestEventResult
unfolding process_event mint
ingest_new w deps clocks tx_now input = do
  ulid ← mint w
  event ← insert_event w tx_now (event_input clocks input (concat "evt_" ulid))
  process_event w deps clocks tx_now input event

abbrev replay_or : Tx Db IngestEventResult → Option EventRow → Tx Db IngestEventResult
replay_or fresh none = fresh
replay_or fresh (some prior) = pure (record {
  event_id = prior.id;
  accepted_at = prior.ingested_at;
  match_count = 0;
  replayed = true;
})

unfoldable pub ingest_event :
    World → IngestEventDeps → IngestClocks → ℕ → IngestEventInput → Tx Db IngestEventResult
unfolding ingest_new
ingest_event w deps clocks tx_now input db =
    replay_or (ingest_new w deps clocks tx_now input)
      (find_event_by_idempotency_key db.events_ingested input.app_id input.idempotency_key) db
