-- ===== src/Outbox/Drain.antt =====
-- The drainer side of src/lib/kafka/outbox.ts.
pub mod Budget
pub mod Counts
use Prim.Native.String.{compare, slice, ◌++◌ as concat}
use text.Mathlib.Text.{is_lt}
use helpan_ai.Prelude.{
  ℕ, zero, suc, ◌+◌, String, Bool, true, false, ◌&&◌, ◌||◌, Option, none, some, List, [], ◌∷◌, ◌==◌,
  ltb, leb, nat_eq, select, take, update_where, if◌then◌else◌,
}
use helpan_ai.Json.{Json}
use helpan_ai.Store.Rows.{KafkaOutboxRow, OutboxStatus, outbox_is_pending}
use helpan_ai.Actions.Redactor.Texts.{utf16_length}

-- The entry of RETRY_BACKOFF_MS at an index; `none` is undefined.
abbrev pub retry_backoff_ms : ℕ → Option ℕ
retry_backoff_ms zero = some 1000
retry_backoff_ms (suc zero) = some 2000
retry_backoff_ms (suc (suc zero)) = some 4000
retry_backoff_ms (suc (suc (suc zero))) = some 8000
retry_backoff_ms (suc (suc (suc (suc zero)))) = some 16_000
retry_backoff_ms (suc (suc (suc (suc (suc zero))))) = some 32_000
retry_backoff_ms (suc (suc (suc (suc (suc (suc zero)))))) = some 60_000
retry_backoff_ms _ = none

abbrev pub max_outbox_attempts : ℕ
max_outbox_attempts = 7

abbrev pub is_due : ℕ → KafkaOutboxRow → Bool
is_due now row = outbox_is_pending row.status && leb row.next_attempt_at now

-- ORDER BY next_attempt_at, created_at, id.
abbrev due_before : KafkaOutboxRow → KafkaOutboxRow → Bool
due_before a b =
    ltb a.next_attempt_at b.next_attempt_at
    || (nat_eq a.next_attempt_at b.next_attempt_at
        && (ltb a.created_at b.created_at
            || (nat_eq a.created_at b.created_at && is_lt (compare a.id b.id))))

unfoldable pub insert_due : KafkaOutboxRow → List KafkaOutboxRow → List KafkaOutboxRow
insert_due row [] = row ∷ []
insert_due row (x ∷ xs) = elim (due_before row x) [
  | true ↦ row ∷ x ∷ xs
  | false ↦ x ∷ insert_due row xs
]

unfoldable pub sort_due : List KafkaOutboxRow → List KafkaOutboxRow
sort_due [] = []
sort_due (x ∷ xs) = insert_due x (sort_due xs)

-- SKIP LOCKED leaves out the rows that `locked` names.
unfoldable pub claim_pending_batch :
    (String → Bool) → ℕ → ℕ → List KafkaOutboxRow → List KafkaOutboxRow
unfolding sort_due insert_due
claim_pending_batch locked now limit rows =
    take limit (sort_due (select (λ r. if locked r.id then false else is_due now r) rows))

abbrev pub has_outbox_id : String → KafkaOutboxRow → Bool
has_outbox_id id row = row.id == id

unfoldable pub mark_delivered : ℕ → String → List KafkaOutboxRow → List KafkaOutboxRow
mark_delivered tx_now id rows =
    update_where (has_outbox_id id)
      (λ row. record row {
        status = OutboxStatus.delivered;
        delivered_at = some tx_now;
        last_error = none;
      })
      rows

-- For texts of the basic plane `slice` counts what JavaScript's does.
unfoldable pub truncate_error : String → String
truncate_error s = if ltb 2000 (utf16_length s) then concat (slice s 0 2000) "…<truncated>" else s

abbrev pub abandoned_row : ℕ → String → KafkaOutboxRow → KafkaOutboxRow
abandoned_row attempts error row = record row {
  status = OutboxStatus.abandoned;
  attempts = attempts;
  last_error = some error;
}

abbrev pub retried_row : ℕ → ℕ → String → KafkaOutboxRow → KafkaOutboxRow
retried_row attempts next error row = record row {
  attempts = attempts;
  next_attempt_at = next;
  last_error = some error;
}

pub record Settled : Type 0 where
  pub next_status : OutboxStatus
  pub next_attempt_at : ℕ

-- `new Date(NaN)` is refused by the driver: no delay, no update.
abbrev retry :
    ℕ
    → String
    → ℕ
    → String
    → Option ℕ
    → List KafkaOutboxRow
    → Option (Settled × List KafkaOutboxRow)
retry attempts id now error none rows = none
retry attempts id now error (some delay) rows = some (
  record { next_status = OutboxStatus.pending; next_attempt_at = now + delay },
  update_where (has_outbox_id id) (retried_row attempts (now + delay) error) rows,
)

unfoldable pub mark_failed :
    String → ℕ → String → ℕ → List KafkaOutboxRow → Option (Settled × List KafkaOutboxRow)
unfolding truncate_error
mark_failed id attempts_before error now rows =
    let attempts = attempts_before + 1 in
    if leb max_outbox_attempts attempts
    then some (
      record { next_status = OutboxStatus.abandoned; next_attempt_at = now },
      update_where (has_outbox_id id) (abandoned_row attempts (truncate_error error)) rows,
    )
    else retry attempts id now (truncate_error error) (retry_backoff_ms attempts_before) rows

pub record DrainOutboxResult : Type 0 where
  pub delivered : ℕ
  pub failed : ℕ
  pub abandoned : ℕ
  pub delivered_ids : List String

abbrev pub nothing_drained : DrainOutboxResult
nothing_drained = record { delivered = 0; failed = 0; abandoned = 0; delivered_ids = [] }

pub record KafkaMessage : Type 0 where
  pub topic : String
  pub key : String
  pub value : Json
  pub headers : Option Json

abbrev pub message_of : KafkaOutboxRow → KafkaMessage
message_of row = record {
  topic = row.topic;
  key = row.partition_key;
  value = row.payload;
  headers = row.headers;
}

abbrev pub count_delivered : String → DrainOutboxResult → DrainOutboxResult
count_delivered id r = record r {
  delivered = r.delivered + 1;
  delivered_ids = id ∷ r.delivered_ids;
}

abbrev pub count_unsent : OutboxStatus → DrainOutboxResult → DrainOutboxResult
count_unsent OutboxStatus.abandoned r = record r { abandoned = r.abandoned + 1 }
count_unsent _ r = record r { failed = r.failed + 1 }

-- The broker: `none` is a publish that resolves, `some` the message of one that rejects. `between`
-- is what other drainers do to the table before each row is settled.
pub record DrainDeps : Type 0 where
  pub publish : KafkaMessage → Option String
  pub between : String → List KafkaOutboxRow → List KafkaOutboxRow
  pub tx_now : ℕ
  pub settle_now : ℕ

abbrev settled_unsent :
    Option (Settled × List KafkaOutboxRow)
    → (List KafkaOutboxRow → DrainOutboxResult × List KafkaOutboxRow)
    → List KafkaOutboxRow
    → DrainOutboxResult × List KafkaOutboxRow
settled_unsent none rest rows = (nothing_drained, rows)
settled_unsent (some (settled, rows')) rest rows =
    let (result, rows'') = rest rows' in (count_unsent settled.next_status result, rows'')

-- The loop over the claimed rows; the ids are collected from the back. An update that the driver
-- refuses ends the tick.
unfoldable pub drain_rows :
    DrainDeps → List KafkaOutboxRow → List KafkaOutboxRow → DrainOutboxResult × List KafkaOutboxRow
unfolding mark_delivered mark_failed
drain_rows deps [] rows = (nothing_drained, rows)
drain_rows deps (row ∷ claimed) rows = elim (deps.publish (message_of row)) [
  | none ↦
      let (result, rows') =
        drain_rows deps claimed (mark_delivered deps.tx_now row.id (deps.between row.id rows)) in
      (count_delivered row.id result, rows')
  | some error ↦
      settled_unsent
        (mark_failed row.id row.attempts error deps.settle_now (deps.between row.id rows))
        (drain_rows deps claimed) (deps.between row.id rows)
]

-- One tick. The claim's locks are released before anything is published.
unfoldable pub drain_outbox_once :
    DrainDeps
    → (String → Bool)
    → ℕ
    → ℕ
    → List KafkaOutboxRow
    → DrainOutboxResult × List KafkaOutboxRow
unfolding claim_pending_batch drain_rows
drain_outbox_once deps locked now batch_size rows =
    drain_rows deps (claim_pending_batch locked now batch_size rows) rows
