-- ===== src/Outbox/Drain/Counts.antt =====
-- What a tick reports.
use helpan_ai.Prelude.{
  ℕ, ◌+◌, ◌≤◌, String, Bool, none, some, List, [], ◌∷◌, ◌≡◌, refl, sym, ap, ◌∙◌, inl, inr, arith,
  length, Option-cases, length-take-le,
}
use helpan_ai.Store.Rows.{KafkaOutboxRow, OutboxStatus}
use helpan_ai.Outbox.Drain.{
  drain_rows, drain_outbox_once, claim_pending_batch, DrainDeps, DrainOutboxResult, message_of,
  mark_delivered, count_unsent,
}
use helpan_ai.Outbox.Drain.Budget.{mark_failed_lem}

-- The ids of the rows that the broker takes, in the order of the batch.
abbrev pub sent_ids : DrainDeps → List KafkaOutboxRow → List String
sent_ids deps [] = []
sent_ids deps (row ∷ rows) = elim (deps.publish (message_of row)) [
  | none ↦ row.id ∷ sent_ids deps rows
  | some error ↦ sent_ids deps rows
]

abbrev pub Reports : DrainDeps → List KafkaOutboxRow → DrainOutboxResult → Type 0
Reports deps claimed result =
    (result.delivered_ids ≡ sent_ids deps claimed)
    × (result.delivered ≡ length result.delivered_ids)
    × (result.delivered + result.failed + result.abandoned ≡ length claimed)

count_unsent_lem :
    (status : OutboxStatus) (r : DrainOutboxResult)
    → ((count_unsent status r).delivered_ids ≡ r.delivered_ids)
      × ((count_unsent status r).delivered ≡ r.delivered)
      × ((count_unsent status r).failed + (count_unsent status r).abandoned
          ≡ r.failed + r.abandoned + 1)
count_unsent_lem OutboxStatus.pending r = (refl, refl, omega arith)
count_unsent_lem OutboxStatus.delivered r = (refl, refl, omega arith)
count_unsent_lem OutboxStatus.abandoned r = (refl, refl, omega arith)

drain_rows-Reports :
    (deps : DrainDeps) (claimed rows : List KafkaOutboxRow)
    → Reports deps claimed (drain_rows deps claimed rows).0
unfolding drain_rows
drain_rows-Reports deps [] rows = (refl, refl, omega arith)
drain_rows-Reports deps (row ∷ claimed) rows = elim (Option-cases (deps.publish (message_of row))) [
  | inl sent ↦
      let (ids, count, total) =
        drain_rows-Reports deps claimed
          (mark_delivered deps.tx_now row.id (deps.between row.id rows)) in
      let first : sent_ids deps (row ∷ claimed) ≡ row.id ∷ sent_ids deps claimed = ground arith in
      rw (sent, drain_rows) (ap (λ l. row.id ∷ l) ids ∙ sym first, omega arith, omega arith)
  | inr (error, unsent) ↦
      let (settled, rows', fails, how) =
        mark_failed_lem row.id row.attempts error deps.settle_now (deps.between row.id rows) in
      let (ids, count, total) = drain_rows-Reports deps claimed rows' in
      let (same_ids, same_count, one) =
        count_unsent_lem settled.next_status (drain_rows deps claimed rows').0 in
      let first : sent_ids deps (row ∷ claimed) ≡ sent_ids deps claimed = ground arith in
      rw (unsent, drain_rows)
        (rw fails
          (same_ids ∙ ids ∙ sym first, same_count ∙ count ∙ ap length (sym same_ids), omega arith))
]

-- A tick reports as delivered exactly the claimed rows that the broker took, in their order, and
-- each claimed row as delivered, failed or abandoned, once; it claims a batch at most.
pub drain_outbox_once-Reports :
    (deps : DrainDeps) (locked : String → Bool) (now batch_size : ℕ) (rows : List KafkaOutboxRow)
    → Reports deps
        (claim_pending_batch locked now batch_size rows)
        (drain_outbox_once deps locked now batch_size rows).0
      × (length (claim_pending_batch locked now batch_size rows) ≤ batch_size)
unfolding drain_outbox_once claim_pending_batch
drain_outbox_once-Reports deps locked now batch_size rows =
    (drain_rows-Reports deps _ rows, length-take-le batch_size _)
