-- ===== src/Tests/Drains.antt =====
-- The outbox drainer at concrete inputs.
use helpan_ai.Prelude.{
  ℕ, ◌≤◌, String, Bool, false, none, some, List, [], ◌∷◌, ◌≡◌, refl, arith, All, length, inr, ◌==◌,
  if◌then◌else◌,
}
use helpan_ai.Json.{null}
use helpan_ai.Store.Rows.{KafkaOutboxRow, OutboxStatus}
use helpan_ai.Outbox.Drain.{DrainDeps, claim_pending_batch, drain_outbox_once}
use helpan_ai.Outbox.Drain.Budget.{IsWithinBudget, drain_outbox_once-IsWithinBudget}
use helpan_ai.Outbox.Drain.Counts.{Reports, drain_outbox_once-Reports}
use helpan_ai.Actions.Redactor.Texts.{utf16_length}

abbrev event : String → ℕ → KafkaOutboxRow
event id attempts = record {
  id = id;
  topic = "helpan.action.events";
  partition_key = id;
  payload = null;
  headers = none;
  status = OutboxStatus.pending;
  attempts = attempts;
  next_attempt_at = 10;
  delivered_at = none;
  last_error = none;
  created_at = 5;
}

abbrev table : List KafkaOutboxRow
table = event "kof_1" 6 ∷ event "kof_2" 0 ∷ []

-- A broker that refuses the first event's key, and no other drainer.
abbrev broker : DrainDeps
broker = record {
  publish = λ message. if message.key == "kof_1" then some "timeout" else none;
  between = λ id rows. rows;
  tx_now = 20;
  settle_now = 21;
}

abbrev free : String → Bool
free id = false

seventh_failure : drain_outbox_once broker free 20 10 table ≡ (
  record { delivered = 1; failed = 0; abandoned = 1; delivered_ids = "kof_2" ∷ [] },
  record (event "kof_1" 6) {
    status = OutboxStatus.abandoned;
    attempts = 7;
    last_error = some "timeout";
  }
      ∷ record (event "kof_2" 0) {
        status = OutboxStatus.delivered;
        delivered_at = some 20;
        last_error = none;
      }
      ∷ [],
)
unfolding drain_outbox_once utf16_length
seventh_failure = refl

drain_outbox_once-IsWithinBudget_example :
    All IsWithinBudget (drain_outbox_once broker free 20 10 table).1
drain_outbox_once-IsWithinBudget_example =
    drain_outbox_once-IsWithinBudget broker (λ id rows h. h) free 20 10 table
      ((omega arith, inr (omega arith)), ((omega arith, inr (omega arith)), tt))

drain_outbox_once-Reports_example :
    Reports broker
      (claim_pending_batch free 20 10 table)
      (drain_outbox_once broker free 20 10 table).0
    × (length (claim_pending_batch free 20 10 table) ≤ 10)
drain_outbox_once-Reports_example = drain_outbox_once-Reports broker free 20 10 table
