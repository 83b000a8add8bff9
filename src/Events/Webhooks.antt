-- ===== src/Events/Webhooks.antt =====
-- src/workers/webhookDelivery/worker.ts.
pub mod Rounds
pub mod Attempts
pub mod Counts
use Prim.Native.String.{◌++◌ as concat}
use helpan_ai.Prelude.{
  ℕ, zero, suc, ◌+◌, ◌-◌, ◌*◌, String, Bool, true, false, ◌&&◌, Option, none, some, List, [], ◌∷◌,
  ◌==◌, ltb, leb, not, select, take, length, update_where, if◌then◌else◌,
}
use helpan_ai.Json.{Json}
use helpan_ai.Json.Stringify.{stringify}
use helpan_ai.Time.{to_iso_string}
use helpan_ai.World.{World}
use helpan_ai.Store.{Db}
use helpan_ai.Store.Briefings.{WebhookDeliveryRow, DeliveryStatus, delivery_is_pending}

abbrev pub retry_backoff_seconds : List ℕ
retry_backoff_seconds = 30 ∷ 60 ∷ 300 ∷ 900 ∷ 3600 ∷ 14_400 ∷ 43_200 ∷ []

abbrev pub max_attempts : ℕ
max_attempts = length retry_backoff_seconds + 1

-- `RETRY_BACKOFF_SECONDS[i] ?? 30`.
abbrev pub seconds_at : List ℕ → ℕ → ℕ
seconds_at [] i = 30
seconds_at (s ∷ rest) zero = s
seconds_at (s ∷ rest) (suc i) = seconds_at rest i

-- An attempt count of 0 would read the entry -1, which is undefined.
abbrev pub backoff_seconds : ℕ → ℕ
backoff_seconds zero = 30
backoff_seconds (suc i) = seconds_at retry_backoff_seconds i

unfoldable pub next_backoff_ms : ℕ → Option ℕ
next_backoff_ms attempts =
    if leb max_attempts attempts then none else some (backoff_seconds attempts * 1000)

-- The request that is posted; its headers are these fields and the content type.
pub record WebhookRequest : Type 0 where
  pub url : String
  pub timestamp : String
  pub signature : String
  pub event_type : String
  pub event_id : String
  pub delivery_id : String
  pub body : String

-- What `fetch` does: an answer with its status, or it throws.
pub data FetchAnswer : Type 0 where
  answered : ℕ → FetchAnswer
  unreachable : String → FetchAnswer

pub record WebhookDeps : Type 0 where
  -- HMAC-SHA256 of node:crypto, in hex.
  pub hmac : String → String → String
  pub hmac_secret : String
  pub fetch : WebhookRequest → FetchAnswer

unfoldable pub sign_body : World → WebhookDeps → String → String → String
sign_body w deps body timestamp =
    deps.hmac deps.hmac_secret (concat timestamp (concat "\n" (w.sha256 body)))

unfoldable pub webhook_request : World → WebhookDeps → ℕ → WebhookDeliveryRow → WebhookRequest
unfolding sign_body
webhook_request w deps sent_at row =
    let body = stringify row.payload in
    let timestamp = to_iso_string sent_at in
    record {
      url = row.target_url;
      timestamp = timestamp;
      signature = concat "sha256=" (sign_body w deps body timestamp);
      event_type = row.event_type;
      event_id = row.event_id;
      delivery_id = row.id;
      body = body;
    }

abbrev is_delivered : FetchAnswer → Bool
is_delivered (answered status) = leb 200 status && ltb status 300
is_delivered (unreachable error) = false

unfoldable pub attempt_delivery : World → WebhookDeps → ℕ → WebhookDeliveryRow → Bool
unfolding webhook_request
attempt_delivery w deps sent_at row = is_delivered (deps.fetch (webhook_request w deps sent_at row))

pub data Outcome : Type 0 where
  delivered abandoned rescheduled : Outcome

-- What the row becomes: the worker writes the count that it read, plus one.
unfoldable pub delivered_row : ℕ → ℕ → WebhookDeliveryRow → WebhookDeliveryRow
delivered_row now attempts row = record row {
  status = DeliveryStatus.delivered;
  attempt_count = attempts;
  last_attempt_at = some now;
  delivered_at = some now;
}

unfoldable pub abandoned_row : ℕ → ℕ → WebhookDeliveryRow → WebhookDeliveryRow
abandoned_row now attempts row = record row {
  status = DeliveryStatus.abandoned;
  attempt_count = attempts;
  last_attempt_at = some now;
}

unfoldable pub rescheduled_row : ℕ → ℕ → ℕ → WebhookDeliveryRow → WebhookDeliveryRow
rescheduled_row now attempts backoff row = record row {
  attempt_count = attempts;
  last_attempt_at = some now;
  next_attempt_at = some (now + backoff);
}

abbrev pub has_delivery_id : String → WebhookDeliveryRow → Bool
has_delivery_id id row = row.id == id

-- UPDATE … WHERE id, whatever the status of the row is by now.
abbrev pub update_delivery : String → (WebhookDeliveryRow → WebhookDeliveryRow) → Db → Db
update_delivery id f db = record db {
  webhook_deliveries = update_where (has_delivery_id id) f db.webhook_deliveries;
}

abbrev pub failed_update : ℕ → ℕ → Option ℕ → Outcome × (WebhookDeliveryRow → WebhookDeliveryRow)
failed_update now attempts none = (abandoned, abandoned_row now attempts)
failed_update now attempts (some backoff) = (rescheduled, rescheduled_row now attempts backoff)

-- How one claimed row is settled, given whether its delivery went through.
unfoldable pub settlement :
    ℕ → WebhookDeliveryRow → Bool → Outcome × (WebhookDeliveryRow → WebhookDeliveryRow)
unfolding next_backoff_ms delivered_row abandoned_row rescheduled_row
settlement now row true = (delivered, delivered_row now (row.attempt_count + 1))
settlement now row false =
    failed_update now (row.attempt_count + 1) (next_backoff_ms (row.attempt_count + 1))

abbrev is_due : ℕ → Option ℕ → Bool
is_due now none = false
is_due now (some due) = leb due now

abbrev pub is_claimable : (String → Bool) → ℕ → WebhookDeliveryRow → Bool
is_claimable locked now row =
    not (locked row.id) && (delivery_is_pending row.status && is_due now row.next_attempt_at)

abbrev due_or_zero : Option ℕ → ℕ
due_or_zero none = 0
due_or_zero (some due) = due

-- ORDER BY next_attempt_at ASC.
unfoldable pub insert_by_due :
    WebhookDeliveryRow → List WebhookDeliveryRow → List WebhookDeliveryRow
insert_by_due row [] = row ∷ []
insert_by_due row (x ∷ xs) =
    elim (leb (due_or_zero row.next_attempt_at) (due_or_zero x.next_attempt_at)) [
      | true ↦ row ∷ x ∷ xs
      | false ↦ x ∷ insert_by_due row xs
    ]

unfoldable pub sort_by_due : List WebhookDeliveryRow → List WebhookDeliveryRow
unfolding insert_by_due
sort_by_due [] = []
sort_by_due (x ∷ xs) = insert_by_due x (sort_by_due xs)

-- The rows that another worker's statement has locked are skipped; this statement's own locks end
-- with it, since no transaction is open.
unfoldable pub claim_deliveries :
    (String → Bool) → ℕ → ℕ → List WebhookDeliveryRow → List WebhookDeliveryRow
unfolding sort_by_due
claim_deliveries locked now batch rows =
    take batch (sort_by_due (select (is_claimable locked now) rows))

pub record ProcessBatchResult : Type 0 where
  pub attempted : ℕ
  pub delivered : ℕ
  pub abandoned : ℕ
  pub rescheduled : ℕ

abbrev pub count_outcome : Outcome → ProcessBatchResult → ProcessBatchResult
count_outcome delivered r = record r { delivered = r.delivered + 1 }
count_outcome abandoned r = record r { abandoned = r.abandoned + 1 }
count_outcome rescheduled r = record r { rescheduled = r.rescheduled + 1 }

-- The loop. `between` is what other transactions do while the row is posted.
unfoldable pub process_rows :
    World
    → WebhookDeps
    → (WebhookDeliveryRow → Db → Db)
    → (WebhookDeliveryRow → ℕ)
    → ℕ
    → List WebhookDeliveryRow
    → ProcessBatchResult
    → Db
    → ProcessBatchResult × Db
unfolding settlement attempt_delivery
process_rows w deps between sent_at now [] r db = (r, db)
process_rows w deps between sent_at now (row ∷ rows) r db =
    let settled = settlement now row (attempt_delivery w deps (sent_at row) row) in
    process_rows w deps between sent_at now rows (count_outcome settled.0 r)
      (update_delivery row.id settled.1 (between row db))

unfoldable pub process_batch :
    World
    → WebhookDeps
    → (String → Bool)
    → (WebhookDeliveryRow → Db → Db)
    → (WebhookDeliveryRow → ℕ)
    → ℕ
    → ℕ
    → Db
    → ProcessBatchResult × Db
unfolding process_rows claim_deliveries
process_batch w deps locked between sent_at now batch db =
    let claims = claim_deliveries locked now batch db.webhook_deliveries in
    process_rows w deps between sent_at now claims
      (record { attempted = length claims; delivered = 0; abandoned = 0; rescheduled = 0 }) db
