-- ===== src/Events/Webhooks/Attempts.antt =====
-- How often a webhook delivery is attempted.
use helpan_ai.Prelude.{
  ℕ, suc, ◌+◌, ◌≤◌, String, Bool, true, some, List, [], ◌∷◌, ◌≡◌, sym, ap, ◌∙◌, arith, eq_iff, any,
  find-admits, length, All, All-map, Bool-cases, inl, inr, if◌then◌else◌,
}
use mathlib.Core.Path.{subst}
use helpan_ai.World.{World}
use helpan_ai.Store.{Db}
use helpan_ai.Store.Briefings.{WebhookDeliveryRow, delivery_is_pending}
use helpan_ai.Store.Keyed.{IsFound, All-IsFound}
use helpan_ai.Events.Webhooks.{
  WebhookDeps, ProcessBatchResult, max_attempts, has_delivery_id, claim_deliveries, process_batch,
}
use helpan_ai.Events.Webhooks.Rounds.{
  id_of, HasUniqueDeliveries, get_delivery, IsWithinAttempts, Spares, After, ReadWith,
  process_rows-HasUniqueDeliveries, process_rows-reads, claim_deliveries-All,
  claim_deliveries-pending, any-All,
}

-- A round of the worker: what other transactions do before it, hold locked in it and do while a
-- claimed delivery is sent, the clocks, and the batch's size.
pub record Tick : Type 0 where
  pub before : Db → Db
  pub during : WebhookDeliveryRow → Db → Db
  pub locked : String → Bool
  pub sent_at : WebhookDeliveryRow → ℕ
  pub now : ℕ
  pub batch : ℕ

abbrev pub after_tick : World → WebhookDeps → Tick → Db → Db
after_tick w deps t db = (process_batch w deps t.locked t.during t.sent_at t.now t.batch db).1

abbrev pub is_claimed : String → Tick → Db → Bool
is_claimed j t db =
    any (has_delivery_id j) (claim_deliveries t.locked t.now t.batch db.webhook_deliveries)

-- How many of the rounds claim the delivery.
abbrev pub claims_of : World → WebhookDeps → String → List Tick → Db → ℕ
claims_of w deps j [] db = 0
claims_of w deps j (t ∷ ts) db =
    let later = claims_of w deps j ts (after_tick w deps t (t.before db)) in
    if is_claimed j t (t.before db) then suc later else later

-- The others leave the delivery as it is and the ids unique, before the round and in it.
abbrev pub LeavesAlone : String → Tick → Type 0
LeavesAlone j t = Spares j t.before × ((c : WebhookDeliveryRow) → Spares j (t.during c))

module _ (w : World) (deps : WebhookDeps) (j : String) where
  tick-reads :
      (t : Tick) (db : Db) (row : WebhookDeliveryRow)
      → ((c : WebhookDeliveryRow) → Spares j (t.during c))
      → HasUniqueDeliveries db
      → get_delivery db j ≡ some row
      → HasUniqueDeliveries (after_tick w deps t db)
        × (after : WebhookDeliveryRow) × (get_delivery (after_tick w deps t db) j ≡ some after)
        × (is_claimed j t db ≡ true → delivery_is_pending row.status ≡ true)
        × After (is_claimed j t db) row.attempt_count row after
  unfolding process_batch get_delivery
  tick-reads t db row apart unique f =
      let claims = claim_deliveries t.locked t.now t.batch db.webhook_deliveries in
      let found =
        claim_deliveries-All t.locked t.now t.batch db.webhook_deliveries (IsFound id_of j row)
          (All-IsFound id_of j row db.webhook_deliveries unique f) in
      let same : row.id ≡ j =
        (eq_iff row.id j).0 (find-admits (has_delivery_id j) db.webhook_deliveries row f) in
      let start : ProcessBatchResult = record {
        attempted = length claims;
        delivered = 0;
        abandoned = 0;
        rescheduled = 0;
      } in
      let known =
        All-map (IsFound id_of j row) (ReadWith j row.attempt_count) claims
          (λ c at here. ap (λ (r : WebhookDeliveryRow). r.attempt_count) (at here)) found in
      let (after, id, reads, counts) =
        process_rows-reads w deps t.during t.sent_at t.now j apart claims start db row.attempt_count
          row unique known f same in
      (
        process_rows-HasUniqueDeliveries w deps t.during t.sent_at t.now j apart claims start db
            unique,
        after,
        reads,
        λ claimed.
            any-All (has_delivery_id j) (λ c. delivery_is_pending c.status) row claims claimed found
              (claim_deliveries-pending t.locked t.now t.batch db.webhook_deliveries),
        counts,
      )

-- Where one worker runs, ids are unique, the others leave the delivery alone and its count is eight
-- at most and less while it is pending: of the rounds of the worker, claiming or not, those that
-- claim the delivery and the attempts that it had before them are eight together at most.
pub claimed-le-max_attempts :
    (w : World) (deps : WebhookDeps) (j : String) (ticks : List Tick) (db : Db)
    (row : WebhookDeliveryRow)
    → All (LeavesAlone j) ticks
    → HasUniqueDeliveries db
    → get_delivery db j ≡ some row
    → IsWithinAttempts row
    → claims_of w deps j ticks db + row.attempt_count ≤ max_attempts
claimed-le-max_attempts w deps j [] db row apart unique f (most, pending) = omega (arith, most)
claimed-le-max_attempts w deps j (t ∷ ts) db row ((spared, alone_now), apart) unique f
      (most, pending) =
    let (unique0, same) = spared db unique in
    let start = t.before db in
    let (unique', after, reads, was_pending, change) =
      tick-reads w deps j t start row alone_now unique0 (same ∙ f) in
    let later = claims_of w deps j ts (after_tick w deps t start) in
    elim (Bool-cases (is_claimed j t start)) [
      | inl claimed ↦
          let (exact, below) = subst (λ b. After b row.attempt_count row after) claimed change in
          let room = pending (was_pending claimed) in
          let within : IsWithinAttempts after =
            (omega (arith, exact, room), λ p. omega (arith, exact, below p)) in
          let rest =
            claimed-le-max_attempts w deps j ts (after_tick w deps t start) after apart unique'
              reads within in
          subst (λ b. (if b then suc later else later) + row.attempt_count ≤ max_attempts)
            (sym claimed) (omega (arith, rest, exact))
      | inr passed ↦
          let kept : after ≡ row = subst (λ b. After b row.attempt_count row after) passed change in
          let rest =
            claimed-le-max_attempts w deps j ts (after_tick w deps t start) row apart unique'
              (reads ∙ ap some kept) (most, pending) in
          subst (λ b. (if b then suc later else later) + row.attempt_count ≤ max_attempts)
            (sym passed) rest
    ]
