-- ===== src/Outbox/Drain/Budget.antt =====
-- The retry budget of an outbox row.
use helpan_ai.Prelude.{
  ℕ, suc, ◌+◌, ◌≤◌, ◌<◌, String, Bool, false, some, List, [], ◌∷◌, ◌≡◌, ◌⊎◌, inl, inr, refl, arith,
  All, All-update_where, All-take, if◌then◌else◌, zero, select, update_where, Bool-cases,
  Option-cases, leb,
}
use helpan_ai.Store.Rows.{KafkaOutboxRow, OutboxStatus, outbox_is_pending}
use helpan_ai.Outbox.Drain.{
  retry_backoff_ms, is_due, claim_pending_batch, insert_due, sort_due, has_outbox_id,
  mark_delivered, mark_failed, Settled, truncate_error, abandoned_row, retried_row, drain_rows,
  drain_outbox_once, DrainDeps, message_of,
}

backoff_le :
    (a : ℕ)
    → a < 6
    → (delay : ℕ) × (retry_backoff_ms a ≡ some delay) × (0 < delay) × (delay ≤ 32_000)
backoff_le zero h = (1000, refl, omega arith, omega arith)
backoff_le (suc zero) h = (2000, refl, omega arith, omega arith)
backoff_le (suc (suc zero)) h = (4000, refl, omega arith, omega arith)
backoff_le (suc (suc (suc zero))) h = (8000, refl, omega arith, omega arith)
backoff_le (suc (suc (suc (suc zero)))) h = (16_000, refl, omega arith, omega arith)
backoff_le (suc (suc (suc (suc (suc zero))))) h = (32_000, refl, omega arith, omega arith)
backoff_le (suc (suc (suc (suc (suc (suc a)))))) h = absurd (omega arith)

-- How a failure changes the row: by the seventh it is abandoned, before that it is tried again.
abbrev pub FailsWith :
    ℕ → String → ℕ → List KafkaOutboxRow → String → Settled → List KafkaOutboxRow → Type 0
FailsWith attempts_before id now rows error settled rows' =
    ((6 ≤ attempts_before)
      × (settled.next_status ≡ OutboxStatus.abandoned)
      × (rows' ≡ update_where (has_outbox_id id) (abandoned_row (attempts_before + 1) error) rows))
    ⊎ ((attempts_before < 6)
        × (settled.next_status ≡ OutboxStatus.pending)
        × (now < settled.next_attempt_at)
        × (settled.next_attempt_at ≤ now + 32_000)
        × (rows'
            ≡ update_where (has_outbox_id id)
                (retried_row (attempts_before + 1) settled.next_attempt_at error) rows))

pub mark_failed_lem :
    (id : String) (attempts_before : ℕ) (error : String) (now : ℕ) (rows : List KafkaOutboxRow)
    → (settled : Settled) × (rows' : List KafkaOutboxRow) × (mark_failed id attempts_before error
          now rows
        ≡ some (settled, rows'))
      × FailsWith attempts_before id now rows (truncate_error error) settled rows'
unfolding mark_failed
mark_failed_lem id attempts_before error now rows =
    elim (Bool-cases (leb 7 (attempts_before + 1))) [
      | inl spent ↦ (
        record { next_status = OutboxStatus.abandoned; next_attempt_at = now },
        update_where (has_outbox_id id) (abandoned_row (attempts_before + 1) (truncate_error error))
            rows,
        rw spent refl,
        inl (ground arith, refl, refl),
      )
      | inr left ↦
          let (delay, backoff, positive, bound) = backoff_le attempts_before (ground arith) in
          (
            record { next_status = OutboxStatus.pending; next_attempt_at = now + delay },
            update_where (has_outbox_id id)
                (retried_row (attempts_before + 1) (now + delay) (truncate_error error)) rows,
            rw left (rw backoff refl),
            inr (ground arith, refl, omega arith, omega arith, refl),
          )
    ]

-- A row within its budget: it has failed seven times at most, and fewer while it is pending.
abbrev pub IsWithinBudget : KafkaOutboxRow → Type 0
IsWithinBudget row =
    (row.attempts ≤ 7) × ((outbox_is_pending row.status ≡ false) ⊎ (row.attempts < 7))

mark_delivered-All :
    (tx_now : ℕ) (id : String) (rows : List KafkaOutboxRow)
    → All IsWithinBudget rows
    → All IsWithinBudget (mark_delivered tx_now id rows)
unfolding mark_delivered
mark_delivered-All tx_now id rows h =
    All-update_where IsWithinBudget (has_outbox_id id) _ rows (λ row k. (k.0, inl refl)) h

mark_failed-All :
    (id : String) (attempts_before : ℕ) (error : String) (now : ℕ) (rows : List KafkaOutboxRow)
    (settled : Settled) (rows' : List KafkaOutboxRow)
    → attempts_before < 7
    → FailsWith attempts_before id now rows error settled rows'
    → All IsWithinBudget rows
    → All IsWithinBudget rows'
mark_failed-All id attempts_before error now rows settled rows' below (inl (_, _, same)) h =
    rw same (
      All-update_where IsWithinBudget (has_outbox_id id) _ rows (λ row k. (omega arith, inl refl))
        h)
mark_failed-All id attempts_before error now rows settled rows' below (inr (few, _, _, _, same)) h =
    rw same (
      All-update_where IsWithinBudget (has_outbox_id id) _ rows
        (λ row k. (omega arith, inr (omega arith))) h)

abbrev HasAttemptsLeft : KafkaOutboxRow → Type 0
HasAttemptsLeft row = row.attempts < 7

insert_due-All :
    (row : KafkaOutboxRow) (rows : List KafkaOutboxRow)
    → HasAttemptsLeft row
    → All HasAttemptsLeft rows
    → All HasAttemptsLeft (insert_due row rows)
unfolding insert_due
insert_due-All row [] p h = (p, tt)
insert_due-All row (x ∷ rows) p (q, h) = ground (arith, insert_due-All row rows p h)

sort_due-All :
    (rows : List KafkaOutboxRow) → All HasAttemptsLeft rows → All HasAttemptsLeft (sort_due rows)
unfolding sort_due
sort_due-All [] h = tt
sort_due-All (x ∷ rows) (p, h) = insert_due-All x (sort_due rows) p (sort_due-All rows h)

due-All :
    (locked : String → Bool) (now : ℕ) (rows : List KafkaOutboxRow)
    → All IsWithinBudget rows
    → All HasAttemptsLeft (select (λ r. if locked r.id then false else is_due now r) rows)
due-All locked now [] h = tt
due-All locked now (row ∷ rows) (p, h) =
    elim (Bool-cases (if locked row.id then false else is_due now row)) [
      | inl due ↦ rw (due, select) (ground arith, due-All locked now rows h)
      | inr other ↦ rw (other, select) (due-All locked now rows h)
    ]

module _ (deps : DrainDeps)
    (others : (id : String) (rows : List KafkaOutboxRow)
      → All IsWithinBudget rows
      → All IsWithinBudget (deps.between id rows)) where
  drain_rows-All :
      (claimed rows : List KafkaOutboxRow)
      → All HasAttemptsLeft claimed
      → All IsWithinBudget rows
      → All IsWithinBudget (drain_rows deps claimed rows).1
  unfolding drain_rows
  drain_rows-All [] rows left h = h
  drain_rows-All (row ∷ claimed) rows (below, left) h =
      elim (Option-cases (deps.publish (message_of row))) [
        | inl sent ↦
            rw (sent, drain_rows)
              (drain_rows-All claimed _ left
                (mark_delivered-All deps.tx_now row.id _ (others row.id rows h)))
        | inr (error, unsent) ↦
            let (settled, rows', fails, how) =
              mark_failed_lem row.id row.attempts error deps.settle_now
                (deps.between row.id rows) in
            rw (unsent, drain_rows)
              (rw fails (
                drain_rows-All claimed rows' left (
                  mark_failed-All row.id row.attempts _ deps.settle_now _ settled rows' below how
                    (others row.id rows h))))
      ]

  -- A tick keeps every row within its budget of seven failures, whatever other drainers do to the
  -- table meanwhile, if they keep it too.
  pub drain_outbox_once-IsWithinBudget :
      (locked : String → Bool) (now batch_size : ℕ) (rows : List KafkaOutboxRow)
      → All IsWithinBudget rows
      → All IsWithinBudget (drain_outbox_once deps locked now batch_size rows).1
  unfolding drain_outbox_once claim_pending_batch
  drain_outbox_once-IsWithinBudget locked now batch_size rows h =
      drain_rows-All _ rows
        (All-take HasAttemptsLeft batch_size _ (sort_due-All _ (due-All locked now rows h))) h
