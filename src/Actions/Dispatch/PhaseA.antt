-- ===== src/Actions/Dispatch/PhaseA.antt =====
-- What phase A has written when it commits.
use Prim.Native.String.{◌++◌ as concat}
use helpan_ai.Prelude.{
  ℕ, ◌+◌, String, false, some, [], ◌∷◌, ◌++◌, ◌≡◌, arith, any, last, Bool-cases, inl, inr,
}
use helpan_ai.World.{World}
use helpan_ai.Store.{Db}
use helpan_ai.Store.Rows.{ActionRow, AuditLogRow}
use helpan_ai.Store.Tx.{ok, bind-eq-ok}
use helpan_ai.Audit.{append_audit_entry, audit_row, insert_row}
use helpan_ai.Audit.Chain.{append_audit_entry-ok}
use helpan_ai.Outbox.Enqueue.{enqueue_outbox_entry, outbox_row}
use helpan_ai.Actions.Types.{DispatchAuditContext, DispatchActionArgs, Clocks}
use helpan_ai.Actions.Repo.{InsertActionInput, action_row, conflicts, insert_action}
use helpan_ai.Actions.Dispatch.Phases.{
  Prepared, action_input, dispatched_entry, dispatched_event, use_authority, phase_a,
}

abbrev pub with_action : ActionRow → Db → Db
with_action row db = record db { actions = db.actions ++ row ∷ [] }

insert_action-ok :
    (w : World) (tx_now : ℕ) (input : InsertActionInput) (db : Db) (row : ActionRow) (db' : Db)
    → insert_action w tx_now input db ≡ ok (row, db')
    → (any (conflicts input) db.actions ≡ false)
      × (db' ≡ with_action (action_row w tx_now input) db)
unfolding insert_action
insert_action-ok w tx_now input db row db' h =
    elim (Bool-cases (any (conflicts input) db.actions)) [
      | inl taken ↦ absurd (ground arith)
      | inr free ↦ (free, ground arith)
    ]

module _ (w : World) (clocks : Clocks) (audit : DispatchAuditContext) (args : DispatchActionArgs)
    (p : Prepared) where
  -- The database after phase A, where `latest` was the newest row of the audit log.
  abbrev pub phase_a_db : AuditLogRow → Db → Db
  phase_a_db latest db =
      record (use_authority clocks args p
        (with_action (action_row w clocks.tx_a (action_input audit args p)) db)) {
          audit_log =
              insert_row
                (audit_row w clocks.tx_a (w.ulid db.minted) latest.entry_hash
                  (dispatched_entry audit args p))
                db.audit_log;
          kafka_outbox =
              db.kafka_outbox
              ++ outbox_row w clocks.tx_a (concat "kof_" (w.ulid (db.minted + 1)))
                  (dispatched_event args p clocks.now)
                ∷ [];
          minted = db.minted + 1 + 1;
        }

  pub phase_a-ok :
      (db : Db) (event_id : String) (db' : Db)
      → phase_a w clocks audit args p db ≡ ok (event_id, db')
      → (any (conflicts (action_input audit args p)) db.actions ≡ false)
        × (latest : AuditLogRow) × (last db.audit_log ≡ some latest)
        × (db' ≡ phase_a_db latest db)
  unfolding phase_a enqueue_outbox_entry
  phase_a-ok db event_id db' h =
      let (row, db1, inserts, h1) =
        bind-eq-ok (insert_action w clocks.tx_a (action_input audit args p)) _ db h in
      let (free, inserted) = insert_action-ok w clocks.tx_a _ db row db1 inserts in
      let (appended, db2, appends, h2) =
        bind-eq-ok (append_audit_entry w clocks.tx_a (dispatched_entry audit args p)) _ db1 h1 in
      let (latest, newest, grown) = append_audit_entry-ok w clocks.tx_a _ db1 appends in
      (free, latest, ground arith, ground arith)
