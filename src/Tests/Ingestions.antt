-- ===== src/Tests/Ingestions.antt =====
-- Briefings and the ingestion of events at concrete inputs.
use helpan_ai.Prelude.{
  String, true, false, Option, none, some, List, [], ◌∷◌, ◌++◌, ◌≡◌, refl, All, length, map, inl,
}
use helpan_ai.Json.{get_field, str, obj, Fields, end, field}
use helpan_ai.Store.{Db, empty_db}
use helpan_ai.Store.Briefings.{BriefingRow, BriefingType, BriefingStatus, BriefingMatchRow}
use helpan_ai.Store.Tx.{RailError, Result, ok, err}
use helpan_ai.Matching.Types.{is_inherited, Platform}
use helpan_ai.Briefings.Service.{AuditContext, BriefingDto, revoke_briefing}
use helpan_ai.Events.Service.{
  IngestEventInput, IngestEventResult, IngestEventDeps, IngestClocks, ingest_event,
}
use helpan_ai.Json.{get_field}
use helpan_ai.Audit.{audit_row, insert_row, append_audit_entry}
use helpan_ai.Outbox.Enqueue.{enqueue_outbox_entry}
use helpan_ai.Matching.Equal.{payload_covers_match_predicate, json_equal}
use helpan_ai.Matching.Engine.{match_event_against_briefings}
use helpan_ai.Events.Repo.{
  find_event_by_idempotency_key, insert_event, list_active_briefings_for_event,
  insert_briefing_match, enqueue_webhook_delivery, mark_event_match_status,
}
use helpan_ai.Events.Service.Ingest.{ingest_event-twice}
use helpan_ai.Events.Service.Revoked.{IsNotOf, revoke-ingest_event}
use helpan_ai.Events.Service.Candidates.{
  IsForEligible, ingest_event-IsForEligible, ingest_event-poisoned,
}
use helpan_ai.Tests.Fixtures.{plain_world, genesis_db}
use helpan_ai.Events.Repo.{
  enqueue_webhook_delivery, insert_briefing_match, mark_event_match_status,
  list_active_briefings_for_event, insert_event, find_event_by_idempotency_key,
}
use helpan_ai.Matching.Engine.{match_event_against_briefings}
use helpan_ai.Matching.Equal.{payload_covers_match_predicate}
use helpan_ai.Outbox.Enqueue.{enqueue_outbox_entry}
use helpan_ai.Audit.{append_audit_entry}
use helpan_ai.Json.Stringify.{decimal}
use helpan_ai.Briefings.Repo.{soft_revoke_briefing, get_briefing_by_id}

abbrev briefing : String → Fields → BriefingRow
briefing id intent = record {
  id = id;
  account_uuid = "acc_1";
  app_id = "app_planner";
  agent_id = none;
  briefing_type = BriefingType.standing_basket;
  status = BriefingStatus.active;
  intent = intent;
  expires_at = some 9_000;
  app_correlation_id = none;
  created_at = 5_000;
  updated_at = 5_000;
  revoked_at = none;
}

abbrev wants_apples : Fields
wants_apples = field "match" (obj (field "sku" (str "apples") end)) end

abbrev wants_pears : Fields
wants_pears = field "match" (obj (field "sku" (str "pears") end)) end

abbrev market : Db
market = record genesis_db {
  briefings = briefing "brf_1" wants_apples ∷ briefing "brf_2" wants_pears ∷ [];
}

abbrev apples : IngestEventInput
apples = record {
  event_type = "STOCK_ARRIVED";
  app_id = "app_planner";
  account_uuid = some "acc_1";
  payload = field "sku" (str "apples") (field "crates" (str "7") end);
  published_at = none;
  app_correlation_id = none;
  idempotency_key = "idem_1";
  request_id = "req_1";
  traceparent = none;
}

abbrev idle_platform : Platform
idle_platform = record {
  parse_date = λ v. none;
  clock_in_zone = λ zone ms. none;
  distance_km = λ a b c d. a;
  to_lower_case = λ s. s;
}

abbrev with_webhook : IngestEventDeps
with_webhook = record { platform = idle_platform; resolve = λ app. some "https://planner/hook" }

abbrev clocks : IngestClocks
clocks = record { received = 8_000; selected = 8_001; matched = 8_002; occurred = λ i. 8_003 }

abbrev ingested_or : Result (IngestEventResult × Db) → IngestEventResult × Db
ingested_or (ok r) = r
ingested_or (err e) =
    (record { event_id = ""; accepted_at = 0; match_count = 0; replayed = false }, empty_db)

abbrev first : IngestEventResult × Db
first = ingested_or (ingest_event plain_world with_webhook clocks 8_004 apples market)

first_returns :
    ingest_event plain_world with_webhook clocks 8_004 apples market ≡ ok (first.0, first.1)
unfolding ingest_event find_event_by_idempotency_key insert_event match_event_against_briefings
    list_active_briefings_for_event get_field payload_covers_match_predicate enqueue_outbox_entry
    append_audit_entry mark_event_match_status insert_briefing_match enqueue_webhook_delivery
first_returns = refl

first_answers :
    first.0 ≡ record { event_id = "evt_0"; accepted_at = 8_004; match_count = 1; replayed = false }
unfolding ingest_event find_event_by_idempotency_key insert_event match_event_against_briefings
    list_active_briefings_for_event get_field payload_covers_match_predicate json_equal
    insert_briefing_match enqueue_webhook_delivery enqueue_outbox_entry mark_event_match_status
    append_audit_entry decimal
first_answers = refl

first_writes :
    (map (λ (m : BriefingMatchRow). m.briefing_id) first.1.briefing_matches ≡ "brf_1" ∷ [])
    × (length first.1.webhook_deliveries ≡ 1)
    × (length first.1.kafka_outbox ≡ 1)
    × (length first.1.audit_log ≡ 2)
unfolding ingest_event find_event_by_idempotency_key insert_event match_event_against_briefings
    list_active_briefings_for_event get_field payload_covers_match_predicate json_equal
    insert_briefing_match enqueue_webhook_delivery enqueue_outbox_entry mark_event_match_status
    append_audit_entry insert_row audit_row
first_writes = (refl, refl, refl, refl)

ingest_event-twice_example :
    ingest_event plain_world with_webhook clocks 9_000 apples first.1
    ≡ ok (record first.0 { match_count = 0; replayed = true }, first.1)
unfolding find_event_by_idempotency_key
ingest_event-twice_example =
    ingest_event-twice plain_world with_webhook clocks 8_004 apples market first.0 first.1 refl
      first_returns plain_world with_webhook clocks 9_000 apples refl refl

ingest_event-IsForEligible_example :
    (rows : List BriefingMatchRow) × (first.1.briefing_matches ≡ [] ++ rows)
    × All (IsForEligible plain_world with_webhook clocks 8_004 apples market.briefings) rows
unfolding find_event_by_idempotency_key
ingest_event-IsForEligible_example =
    ingest_event-IsForEligible plain_world with_webhook clocks 8_004 apples market first.0 first.1
      refl first_returns

-- One account's briefing whose domain is `constructor`.
abbrev poisoned : Db
poisoned = record market {
  briefings = briefing "brf_0" (field "domain" (str "constructor") end) ∷ market.briefings;
}

ingest_event-poisoned_example :
    (e : RailError) × (ingest_event plain_world with_webhook clocks 8_004 apples poisoned ≡ err e)
unfolding find_event_by_idempotency_key list_active_briefings_for_event get_field is_inherited
ingest_event-poisoned_example =
    ingest_event-poisoned plain_world with_webhook clocks 8_004 apples poisoned refl
      (inl ("constructor", refl, refl))

abbrev owner : AuditContext
owner = record {
  account_uuid = "acc_1";
  app_id = "app_planner";
  request_id = "req_2";
  traceparent = none;
}

abbrev revoked_or : Result (Option BriefingDto × Db) → Option BriefingDto × Db
revoked_or (ok r) = r
revoked_or (err e) = (none, empty_db)

abbrev revocation : Option BriefingDto × Db
revocation = revoked_or (revoke_briefing plain_world owner "brf_1" 7_000 7_001 market)

revocation_returns :
    revoke_briefing plain_world owner "brf_1" 7_000 7_001 market ≡ ok (revocation.0, revocation.1)
unfolding revoke_briefing get_briefing_by_id soft_revoke_briefing append_audit_entry
revocation_returns = refl

abbrev unmatched : IngestEventResult × Db
unmatched = ingested_or (ingest_event plain_world with_webhook clocks 8_004 apples revocation.1)

unmatched_returns :
    ingest_event plain_world with_webhook clocks 8_004 apples revocation.1
    ≡ ok (unmatched.0, unmatched.1)
unfolding ingest_event find_event_by_idempotency_key revoke_briefing get_briefing_by_id
    soft_revoke_briefing append_audit_entry insert_event match_event_against_briefings
    list_active_briefings_for_event get_field payload_covers_match_predicate mark_event_match_status
    insert_row audit_row
unmatched_returns = refl

revoke-ingest_event_example :
    (rows : List BriefingMatchRow) × (unmatched.1.briefing_matches
      ≡ revocation.1.briefing_matches ++ rows)
    × All (IsNotOf plain_world with_webhook clocks 8_004 apples "brf_1" "acc_1") rows
unfolding find_event_by_idempotency_key revoke_briefing get_briefing_by_id soft_revoke_briefing
    append_audit_entry
revoke-ingest_event_example =
    revoke-ingest_event plain_world with_webhook clocks 8_004 apples owner "brf_1" 7_000 7_001
      market revocation.0 revocation.1 unmatched.0 unmatched.1 revocation_returns refl
      unmatched_returns
