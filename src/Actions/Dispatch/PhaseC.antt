-- ===== src/Actions/Dispatch/PhaseC.antt =====
-- What phase C has written when it commits.
use helpan_ai.Prelude.{String, Option, ◌≡◌, ◌≢◌, inl, inr, arith, update_where, find}
use helpan_ai.World.{World}
use helpan_ai.Store.{Db}
use helpan_ai.Store.Rows.{ActionRow}
use helpan_ai.Store.Tx.{Result-cases, ok}
use helpan_ai.Audit.Hash.{AuditEntry}
use helpan_ai.Journal.{IsRecorded, IsRecorded-of_run}
use helpan_ai.Outbox.Enqueue.{EnqueueOutboxInput}
use helpan_ai.Actions.Types.{
  DispatchOutcome, completed, failed, rejected, DispatchAuditContext, DispatchActionArgs, Clocks,
}
use helpan_ai.Actions.Repo.{
  completed_row, failed_row, has_action_id, updated, mark_action_completed, mark_action_failed,
}
use helpan_ai.Actions.Dispatch.{settle}
use helpan_ai.Actions.Dispatch.Phases.{
  Prepared, completed_entry, completed_event, failed_entry, failed_event, phase_c,
}

abbrev pub with_updated : String → (ActionRow → ActionRow) → Db → Db
with_updated id f db = record db { actions = update_where (has_action_id id) f db.actions }

module _ (w : World) (clocks : Clocks) (audit : DispatchAuditContext) (args : DispatchActionArgs)
    (p : Prepared) where
  abbrev pub terminal_row : DispatchOutcome → ActionRow → ActionRow
  terminal_row (completed result latency) row = completed_row w clocks.completed_at result row
  terminal_row (failed code detail latency) row = failed_row w clocks.completed_at code detail row
  terminal_row rejected row = row

  abbrev pub terminal_entry : DispatchOutcome → AuditEntry → AuditEntry
  terminal_entry (completed result latency) e = completed_entry audit args p result latency
  terminal_entry (failed code detail latency) e = failed_entry audit args p code detail latency
  terminal_entry rejected e = e

  abbrev pub IsSettled : DispatchOutcome → Db → Option ActionRow → Db → Type 0
  IsSettled outcome db final db' =
      (final ≡ updated (terminal_row outcome) (find (has_action_id p.action_id) db.actions))
      × (entry : AuditEntry) × (event : EnqueueOutboxInput) × (outcome ≢ rejected)
      × IsRecorded w clocks.tx_c entry event (with_updated p.action_id (terminal_row outcome) db)
          db'

  pub phase_c-ok :
      (outcome : DispatchOutcome) (db : Db) (final : Option ActionRow) (db' : Db)
      → phase_c w clocks audit args p outcome db ≡ ok (final, db')
      → IsSettled outcome db final db'
  unfolding phase_c mark_action_completed mark_action_failed
  phase_c-ok (completed result latency) db final db' h =
      let f = terminal_row (completed result latency) in
      let (same, recorded) =
        IsRecorded-of_run w clocks.tx_c (completed_entry audit args p result latency)
          (completed_event args p clocks.completed_at)
          (updated f (find (has_action_id p.action_id) db.actions)) (with_updated p.action_id f db)
          final db' h in
      (same, _, _, (λ e. cc), recorded)
  phase_c-ok (failed code detail latency) db final db' h =
      let f = terminal_row (failed code detail latency) in
      let (same, recorded) =
        IsRecorded-of_run w clocks.tx_c (failed_entry audit args p code detail latency)
          (failed_event args p code clocks.completed_at)
          (updated f (find (has_action_id p.action_id) db.actions)) (with_updated p.action_id f db)
          final db' h in
      (same, _, _, (λ e. cc), recorded)
  phase_c-ok rejected db final db' h = absurd (cc)

  pub settle-usage :
      (outcome : DispatchOutcome) (db : Db)
      → (settle w clocks audit args p outcome db).1.authority_usage ≡ db.authority_usage
  unfolding settle
  settle-usage outcome db = elim (Result-cases (phase_c w clocks audit args p outcome db)) [
    | inr (e, aborts) ↦ ground arith
    | inl ((final, db'), done) ↦
        let (_, _, _, _, (latest, newest, same)) = phase_c-ok outcome db final db' done in
        ground arith
  ]
