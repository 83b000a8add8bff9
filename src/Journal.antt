-- ===== src/Journal.antt =====
-- The pair that most transactions of the services end with: `appendAuditEntry`, then
-- `enqueueOutboxEntry`.
use Prim.Native.String.{◌++◌ as concat}
use helpan_ai.Prelude.{ℕ, ◌+◌, some, [], ◌∷◌, ◌++◌, ◌≡◌, arith, last, length}
use helpan_ai.World.{World}
use helpan_ai.Store.{Db}
use helpan_ai.Store.Rows.{AuditLogRow}
use helpan_ai.Store.Tx.{ok, ◌>>◌, pure, bind-eq-ok}
use helpan_ai.Audit.{append_audit_entry, audit_row, insert_row}
use helpan_ai.Audit.Hash.{AuditEntry}
use helpan_ai.Audit.Chain.{append_audit_entry-ok, length-insert_row}
use helpan_ai.Outbox.Enqueue.{EnqueueOutboxInput, outbox_row, enqueue_outbox_entry}

-- The database after both, where `latest` was the newest row of the audit log.
abbrev pub recorded_db : World → ℕ → AuditEntry → EnqueueOutboxInput → AuditLogRow → Db → Db
recorded_db w tx_now entry event latest db = record db {
  audit_log =
      insert_row (audit_row w tx_now (w.ulid db.minted) latest.entry_hash entry) db.audit_log;
  kafka_outbox =
      db.kafka_outbox ++ outbox_row w tx_now (concat "kof_" (w.ulid (db.minted + 1))) event ∷ [];
  minted = db.minted + 1 + 1;
}

abbrev pub IsRecorded : World → ℕ → AuditEntry → EnqueueOutboxInput → Db → Db → Type 0
IsRecorded w tx_now entry event db db' =
    (latest : AuditLogRow) × (last db.audit_log ≡ some latest)
    × (db' ≡ recorded_db w tx_now entry event latest db)

module _ {A : Type 0} (w : World) (tx_now : ℕ) (entry : AuditEntry) (event : EnqueueOutboxInput)
    (a : A) (db : Db) (b : A) (db' : Db)
    (recorded : (append_audit_entry w tx_now entry
          >> (enqueue_outbox_entry w tx_now event >> pure a))
        db
      ≡ ok (b, db')) where
  pub IsRecorded-of_run : (b ≡ a) × IsRecorded w tx_now entry event db db'
  unfolding enqueue_outbox_entry
  IsRecorded-of_run =
      let (appended, db1, appends, h1) =
        bind-eq-ok (append_audit_entry w tx_now entry)
          (λ _. enqueue_outbox_entry w tx_now event >> pure a) db recorded in
      let (latest, newest, same) = append_audit_entry-ok w tx_now entry db appends in
      (ground arith, (latest, newest, ground arith))

pub length-IsRecorded :
    (w : World) (tx_now : ℕ) (entry : AuditEntry) (event : EnqueueOutboxInput) (db db' : Db)
    → IsRecorded w tx_now entry event db db'
    → length db'.audit_log ≡ length db.audit_log + 1
length-IsRecorded w tx_now entry event db db' (latest, newest, same) = ground (
  arith,
  length-insert_row (audit_row w tx_now (w.ulid db.minted) latest.entry_hash entry) db.audit_log,
)
