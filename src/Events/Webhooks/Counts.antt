-- ===== src/Events/Webhooks/Counts.antt =====
-- What a round of the webhook worker reports, whatever other transactions do meanwhile.
use helpan_ai.Prelude.{
  ℕ, zero, suc, ◌+◌, ◌*◌, ◌≤◌, ◌<◌, ◌⊎◌, inl, inr, String, Bool, false, Option, none, some, sym,
  List, [], ◌∷◌, ◌≡◌, refl, arith, length, Any, length-take-le, select, Bool-cases, leb,
}
use mathlib.Core.Path.{subst}
use helpan_ai.World.{World}
use helpan_ai.Store.{Db}
use helpan_ai.Store.Briefings.{WebhookDeliveryRow, DeliveryStatus}
use helpan_ai.Events.Webhooks.{
  WebhookDeps, Outcome, delivered, abandoned, rescheduled, ProcessBatchResult, count_outcome,
  settlement, attempt_delivery, update_delivery, claim_deliveries, process_rows, process_batch,
  sort_by_due, is_claimable, next_backoff_ms, backoff_seconds, failed_update, abandoned_row,
  rescheduled_row,
}

abbrev settled_count : ProcessBatchResult → ℕ
settled_count r = r.delivered + r.abandoned + r.rescheduled

count_outcome-settled :
    (o : Outcome) (r : ProcessBatchResult)
    → (settled_count (count_outcome o r) ≡ suc (settled_count r))
      × ((count_outcome o r).attempted ≡ r.attempted)
count_outcome-settled delivered r = (omega arith, refl)
count_outcome-settled abandoned r = (omega arith, refl)
count_outcome-settled rescheduled r = (omega arith, refl)

module _ (w : World) (deps : WebhookDeps) (between : WebhookDeliveryRow → Db → Db)
    (sent_at : WebhookDeliveryRow → ℕ) (now : ℕ) where
  process_rows-counts :
      (rows : List WebhookDeliveryRow) (r : ProcessBatchResult) (db : Db)
      → (settled_count (process_rows w deps between sent_at now rows r db).0
          ≡ length rows + settled_count r)
        × ((process_rows w deps between sent_at now rows r db).0.attempted ≡ r.attempted)
  unfolding process_rows
  process_rows-counts [] r db = (omega arith, refl)
  process_rows-counts (row ∷ rows) r db =
      let settled = settlement now row (attempt_delivery w deps (sent_at row) row) in
      let (one, keeps) = count_outcome-settled settled.0 r in
      let (all, same) =
        process_rows-counts rows (count_outcome settled.0 r)
          (update_delivery row.id settled.1 (between row db)) in
      (omega (arith, all, one), omega (arith, same, keeps))

  -- A round claims a batch at most, and counts each claimed row once, as delivered, abandoned or
  -- rescheduled.
  pub process_batch-counts :
      (locked : String → Bool) (batch : ℕ) (db : Db)
      → let r = (process_batch w deps locked between sent_at now batch db).0 in
        (r.attempted ≡ length (claim_deliveries locked now batch db.webhook_deliveries))
        × (r.delivered + r.abandoned + r.rescheduled ≡ r.attempted)
        × (r.attempted ≤ batch)
  unfolding process_batch claim_deliveries
  process_batch-counts locked batch db =
      let claims = claim_deliveries locked now batch db.webhook_deliveries in
      let start : ProcessBatchResult = record {
        attempted = length claims;
        delivered = 0;
        abandoned = 0;
        rescheduled = 0;
      } in
      let (all, same) = process_rows-counts claims start db in
      (
        same,
        omega (arith, all, same),
        omega (
          arith,
          same,
          length-take-le batch
              (sort_by_due (select (is_claimable locked now) db.webhook_deliveries)),
        ),
      )

-- The documented retry schedule: the attempts made, and the delay until the next.
abbrev pub retry_schedule : List (ℕ × ℕ)
retry_schedule =
    (1, 30_000)
    ∷ (2, 60_000)
    ∷ (3, 300_000)
    ∷ (4, 900_000)
    ∷ (5, 3_600_000)
    ∷ (6, 14_400_000)
    ∷ (7, 43_200_000)
    ∷ []

abbrev pub IsScheduled : ℕ → ℕ → Type 0
IsScheduled attempts delay = Any (λ (e : ℕ × ℕ). (attempts ≡ e.0) × (delay ≡ e.1)) retry_schedule

backoff-IsScheduled : (k : ℕ) → k < 7 → IsScheduled (k + 1) (backoff_seconds (suc k) * 1000)
backoff-IsScheduled zero h = inl (omega arith, omega arith)
backoff-IsScheduled (suc zero) h = inr (inl (omega arith, omega arith))
backoff-IsScheduled (suc (suc zero)) h = inr (inr (inl (omega arith, omega arith)))
backoff-IsScheduled (suc (suc (suc zero))) h = inr (inr (inr (inl (omega arith, omega arith))))
backoff-IsScheduled (suc (suc (suc (suc zero)))) h =
    inr (inr (inr (inr (inl (omega arith, omega arith)))))
backoff-IsScheduled (suc (suc (suc (suc (suc zero))))) h =
    inr (inr (inr (inr (inr (inl (omega arith, omega arith))))))
backoff-IsScheduled (suc (suc (suc (suc (suc (suc zero)))))) h =
    inr (inr (inr (inr (inr (inr (inl (omega arith, omega arith)))))))
backoff-IsScheduled (suc (suc (suc (suc (suc (suc (suc k))))))) h = absurd (omega arith)

next_backoff_ms-some :
    (k : ℕ) → k < 7 → next_backoff_ms (k + 1) ≡ some (backoff_seconds (suc k) * 1000)
unfolding next_backoff_ms
next_backoff_ms-some k h = ground arith

next_backoff_ms-none : (k : ℕ) → 7 ≤ k → next_backoff_ms (k + 1) ≡ none
unfolding next_backoff_ms
next_backoff_ms-none k h = ground arith

-- The attempt is counted; with the eighth the row is abandoned, before that it is due again after
-- the scheduled delay.
abbrev pub IsFailedOnce : ℕ → WebhookDeliveryRow → WebhookDeliveryRow → Type 0
IsFailedOnce now row after =
    (after.attempt_count ≡ row.attempt_count + 1)
    × (after.last_attempt_at ≡ some now)
    × (((8 ≤ row.attempt_count + 1) × (after.status ≡ DeliveryStatus.abandoned))
        ⊎ ((row.attempt_count + 1 < 8)
            × (after.status ≡ row.status)
            × (delay : ℕ) × IsScheduled (row.attempt_count + 1) delay
            × (after.next_attempt_at ≡ some (now + delay))))

-- The row that a failed attempt leaves counts it and has its time. With the eighth attempt it is
-- abandoned; before that it is as pending as it was, and due again after the delay that the
-- documented schedule has for the attempts made.
pub settlement_failed :
    (now : ℕ) (row : WebhookDeliveryRow) → IsFailedOnce now row ((settlement now row false).1 row)
unfolding settlement abandoned_row rescheduled_row
settlement_failed now row =
    let After : Option ℕ → Type 0 =
      λ o. IsFailedOnce now row ((failed_update now (row.attempt_count + 1) o).1 row) in
    elim (Bool-cases (leb 7 row.attempt_count)) [
      | inl late ↦
          let enough : 7 ≤ row.attempt_count = ground arith in
          subst After (sym (next_backoff_ms-none row.attempt_count enough))
            (refl, refl, inl (omega (arith, enough), refl))
      | inr early ↦
          let below : row.attempt_count < 7 = ground arith in
          subst After (sym (next_backoff_ms-some row.attempt_count below)) (
            refl,
            refl,
            inr (
              omega (arith, below),
              refl,
              backoff_seconds (suc row.attempt_count) * 1000,
              backoff-IsScheduled row.attempt_count below,
              refl,
            ),
          )
    ]
