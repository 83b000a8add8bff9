-- ===== src/Outbox/Enqueue.antt =====
-- The producer side of src/lib/kafka/outbox.ts: one row, inside the caller's transaction.
use Prim.Native.String.{◌++◌ as concat}
use helpan_ai.Prelude.{ℕ, ◌+◌, String, Option, none, [], ◌∷◌, ◌++◌}
use helpan_ai.Json.{Json}
use helpan_ai.World.{World}
use helpan_ai.Store.{Db}
use helpan_ai.Store.Rows.{KafkaOutboxRow, OutboxStatus}
use helpan_ai.Store.Tx.{Tx, ok}

pub record EnqueueOutboxInput : Type 0 where
  pub topic : String
  pub partition_key : String
  pub payload : Json
  pub headers : Option Json

-- The columns that the INSERT leaves out have their defaults: pending, no attempt, due NOW().
unfoldable pub outbox_row : World → ℕ → String → EnqueueOutboxInput → KafkaOutboxRow
outbox_row w tx_now id input = record {
  id = id;
  topic = input.topic;
  partition_key = input.partition_key;
  payload = w.jsonb input.payload;
  headers = input.headers;
  status = OutboxStatus.pending;
  attempts = 0;
  next_attempt_at = tx_now;
  delivered_at = none;
  last_error = none;
  created_at = tx_now;
}

unfoldable pub enqueue_outbox_entry : World → ℕ → EnqueueOutboxInput → Tx Db String
enqueue_outbox_entry w tx_now input db =
    let id = concat "kof_" (w.ulid db.minted) in
    ok (
      id,
      record db {
        kafka_outbox = db.kafka_outbox ++ outbox_row w tx_now id input ∷ [];
        minted = db.minted + 1;
      },
    )
