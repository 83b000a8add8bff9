-- ===== src/Tests/Deliveries.antt =====
-- The webhook worker at concrete inputs.
use helpan_ai.Prelude.{
  ℕ, ◌+◌, ◌≤◌, String, false, none, some, List, [], ◌∷◌, ◌≡◌, refl, arith, ◌==◌, if◌then◌else◌,
}
use helpan_ai.Json.{null}
use helpan_ai.Store.{Db}
use helpan_ai.Store.Briefings.{WebhookDeliveryRow, DeliveryStatus}
use helpan_ai.Events.Webhooks.{
  WebhookDeps, WebhookRequest, answered, max_attempts, claim_deliveries, settlement, process_batch,
}
use helpan_ai.Events.Webhooks.Rounds.{get_delivery}
use helpan_ai.Events.Webhooks.Attempts.{
  Tick, LeavesAlone, claims_of, claimed-le-max_attempts, after_tick,
}
use helpan_ai.Events.Webhooks.Counts.{IsFailedOnce, settlement_failed}
use helpan_ai.Tests.Fixtures.{plain_world, genesis_db}

abbrev delivery : String → ℕ → WebhookDeliveryRow
delivery id attempts = record {
  id = id;
  app_id = "app_planner";
  event_type = "BRIEFING_MATCHED";
  event_id = "evt_0";
  payload = null;
  target_url = id;
  attempt_count = attempts;
  last_attempt_at = none;
  next_attempt_at = some 10;
  status = DeliveryStatus.pending;
  delivered_at = none;
  created_at = 5;
}

abbrev queue : Db
queue = record genesis_db { webhook_deliveries = delivery "whd_1" 6 ∷ delivery "whd_2" 0 ∷ [] }

-- A receiver that answers 503 to the first delivery.
abbrev receiver : WebhookDeps
receiver = record {
  hmac = λ secret text. text;
  hmac_secret = "secret";
  fetch = λ (r : WebhookRequest). if r.url == "whd_1" then answered 503 else answered 204;
}

abbrev tick : ℕ → Tick
tick now = record {
  locked = λ id. false;
  sent_at = λ row. now;
  now = now;
  batch = 10;
  before = λ db. db;
  during = λ row db. db;
}

-- The seventh attempt fails and waits twelve hours, the next round finds nothing due, and the
-- eighth attempt is the last.
abbrev ticks : List Tick
ticks = tick 20 ∷ tick 1_000 ∷ tick 43_200_020 ∷ []

abandons :
    get_delivery
      (after_tick plain_world receiver
        (tick 43_200_020)
        (after_tick plain_world receiver (tick 20) queue))
      "whd_1"
    ≡ some (record (delivery "whd_1" 8) {
      last_attempt_at = some 43_200_020;
      next_attempt_at = some 43_200_020;
      status = DeliveryStatus.abandoned;
    })
unfolding get_delivery process_batch
abandons = refl

abbrev spared : LeavesAlone "whd_1" (tick 20)
spared = ((λ db u. (u, refl)), λ c db u. (u, refl))

claims_counted : claims_of plain_world receiver "whd_1" ticks queue ≡ 2
unfolding get_delivery claim_deliveries process_batch
claims_counted = refl

claimed-le-max_attempts_example :
    claims_of plain_world receiver "whd_1" ticks queue + 6 ≤ max_attempts
unfolding get_delivery claim_deliveries process_batch
claimed-le-max_attempts_example =
    claimed-le-max_attempts plain_world receiver "whd_1" ticks queue (delivery "whd_1" 6)
      (spared, (spared, (spared, tt))) (refl, (refl, tt)) refl (omega arith, λ h. omega arith)

settlement_failed_example :
    IsFailedOnce 20
      (delivery "whd_1" 6)
      ((settlement 20 (delivery "whd_1" 6) false).1 (delivery "whd_1" 6))
settlement_failed_example = settlement_failed 20 (delivery "whd_1" 6)
