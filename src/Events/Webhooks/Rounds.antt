-- ===== src/Events/Webhooks/Rounds.antt =====
-- How one round of the webhook worker leaves a delivery.
use helpan_ai.Prelude.{
  ℕ, suc, ◌≤◌, ◌<◌, String, Bool, Option, true, false, some, List, [], ◌∷◌, ◌≡◌, refl, sym, ap, ◌∙◌,
  arith, ◌==◌, eq_iff, any, find, find-update_where, All, All-select, All-select_of, All-take,
  Bool-cases, inl, inr, if◌then◌else◌,
}
use mathlib.Core.Path.{subst}
use helpan_ai.World.{World}
use helpan_ai.Store.{Db}
use helpan_ai.Store.Briefings.{WebhookDeliveryRow, delivery_is_pending}
use helpan_ai.Store.Keyed.{HasUniqueKeys, update_where-HasUniqueKeys}
use helpan_ai.Events.Webhooks.{
  WebhookDeps, ProcessBatchResult, max_attempts, settlement, attempt_delivery, has_delivery_id,
  update_delivery, is_claimable, insert_by_due, sort_by_due, claim_deliveries, count_outcome,
  process_rows,
}

abbrev pub id_of : WebhookDeliveryRow → String
id_of row = row.id

abbrev pub HasUniqueDeliveries : Db → Type 0
HasUniqueDeliveries db = HasUniqueKeys id_of db.webhook_deliveries

unfoldable pub get_delivery : Db → String → Option WebhookDeliveryRow
get_delivery db j = find (has_delivery_id j) db.webhook_deliveries

-- At most eight attempts, fewer while pending.
abbrev pub IsWithinAttempts : WebhookDeliveryRow → Type 0
IsWithinAttempts row =
    (row.attempt_count ≤ max_attempts)
    × (delivery_is_pending row.status ≡ true → row.attempt_count < max_attempts)

-- The ids stay unique and the delivery as it is.
abbrev pub Spares : String → (Db → Db) → Type 0
Spares j others =
    (db : Db)
    → HasUniqueDeliveries db
    → HasUniqueDeliveries (others db) × (get_delivery (others db) j ≡ get_delivery db j)

module _ (now : ℕ) (claim : WebhookDeliveryRow) (delivered : Bool) (row : WebhookDeliveryRow) where
  settlement-id : ((settlement now claim delivered).1 row).id ≡ row.id
  unfolding settlement
  settlement-id = ground arith

  settlement-attempts :
      ((settlement now claim delivered).1 row).attempt_count ≡ suc claim.attempt_count
  unfolding settlement
  settlement-attempts = ground arith

  settlement-pending :
      delivery_is_pending ((settlement now claim delivered).1 row).status ≡ true
      → suc claim.attempt_count < max_attempts
  unfolding settlement
  settlement-pending h = ground arith

-- A row after a batch, by whether it was claimed with `k` attempts made.
abbrev pub After : Bool → ℕ → WebhookDeliveryRow → WebhookDeliveryRow → Type 0
After true k before after =
    (after.attempt_count ≡ suc k) × (delivery_is_pending after.status ≡ true → suc k < max_attempts)
After false k before after = after ≡ before

abbrev pub ReadWith : String → ℕ → WebhookDeliveryRow → Type 0
ReadWith j k claim = has_delivery_id j claim ≡ true → claim.attempt_count ≡ k

After-hit :
    (now : ℕ) (claim : WebhookDeliveryRow) (delivered again : Bool) (k : ℕ)
    (row after : WebhookDeliveryRow)
    → claim.attempt_count ≡ k
    → After again k ((settlement now claim delivered).1 row) after
    → After true k row after
After-hit now claim delivered true k row after e h = h
After-hit now claim delivered false k row after e h = (
  ap (λ (r : WebhookDeliveryRow). r.attempt_count) h
      ∙ settlement-attempts now claim delivered row
      ∙ ap suc e,
  λ pending.
      subst (λ n. suc n < max_attempts) e
        (settlement-pending now claim delivered row
          (ap (λ (r : WebhookDeliveryRow). delivery_is_pending r.status) (sym h) ∙ pending)),
)

module _ (w : World) (deps : WebhookDeps) (during : WebhookDeliveryRow → Db → Db)
    (sent_at : WebhookDeliveryRow → ℕ) (now : ℕ) (j : String)
    (apart : (c : WebhookDeliveryRow) → Spares j (during c)) where
  pub process_rows-HasUniqueDeliveries :
      (claims : List WebhookDeliveryRow) (r : ProcessBatchResult) (db : Db)
      → HasUniqueDeliveries db
      → HasUniqueDeliveries (process_rows w deps during sent_at now claims r db).1
  unfolding process_rows
  process_rows-HasUniqueDeliveries [] r db h = h
  process_rows-HasUniqueDeliveries (c ∷ cs) r db h =
      let d = attempt_delivery w deps (sent_at c) c in
      process_rows-HasUniqueDeliveries cs (count_outcome (settlement now c d).0 r) _ (
        update_where-HasUniqueKeys id_of (has_delivery_id c.id) (settlement now c d).1
          (during c db).webhook_deliveries (settlement-id now c d) (apart c db h).0)

  pub process_rows-reads :
      (claims : List WebhookDeliveryRow) (r : ProcessBatchResult) (db : Db) (k : ℕ)
      (row : WebhookDeliveryRow)
      → HasUniqueDeliveries db
      → All (ReadWith j k) claims
      → get_delivery db j ≡ some row
      → row.id ≡ j
      → (after : WebhookDeliveryRow) × (after.id ≡ j)
        × (get_delivery (process_rows w deps during sent_at now claims r db).1 j ≡ some after)
        × After (any (has_delivery_id j) claims) k row after
  unfolding process_rows get_delivery
  process_rows-reads [] r db k row unique h f same = (row, same, f, refl)
  process_rows-reads (c ∷ cs) r db k row unique (hc, h) f same =
      let d = attempt_delivery w deps (sent_at c) c in
      let settled = settlement now c d in
      let start = during c db in
      let (unique0, spared) = apart c db unique in
      let unique' =
        update_where-HasUniqueKeys id_of (has_delivery_id c.id) settled.1 start.webhook_deliveries
          (settlement-id now c d) unique0 in
      let next =
        find-update_where (has_delivery_id j) (has_delivery_id c.id) settled.1
          start.webhook_deliveries row (λ x. ap (λ k. k == j) (settlement-id now c d x))
          (spared ∙ f) in
      elim (Bool-cases (c.id == j)) [
        | inl here ↦
            let hit : (row.id == c.id) ≡ true = ground (arith, eq_iff row.id c.id, eq_iff c.id j) in
            let next' : find (has_delivery_id j)
                  (update_delivery c.id settled.1 start).webhook_deliveries
                ≡ some (settled.1 row) =
              next ∙ ap (λ b. some (if b then settled.1 row else row)) hit in
            let (after, id, reads, rest) =
              process_rows-reads cs (count_outcome settled.0 r)
                (update_delivery c.id settled.1 start) k (settled.1 row) unique' h next'
                (settlement-id now c d row ∙ same) in
            (
              after,
              id,
              reads,
              rw (here) (After-hit now c d (any (has_delivery_id j) cs) k row after (hc here) rest),
            )
        | inr other ↦
            let miss : (row.id == c.id) ≡ false =
              ground (arith, eq_iff row.id c.id, eq_iff c.id j) in
            let next' : find (has_delivery_id j)
                  (update_delivery c.id settled.1 start).webhook_deliveries
                ≡ some row =
              next ∙ ap (λ b. some (if b then settled.1 row else row)) miss in
            let (after, id, reads, rest) =
              process_rows-reads cs (count_outcome settled.0 r)
                (update_delivery c.id settled.1 start) k row unique' h next' same in
            (after, id, reads, rw (other) rest)
      ]

insert_by_due-All {κ} :
    (P : WebhookDeliveryRow → Type κ) (row : WebhookDeliveryRow) (rows : List WebhookDeliveryRow)
    → P row
    → All P rows
    → All P (insert_by_due row rows)
unfolding insert_by_due
insert_by_due-All P row [] p h = (p, tt)
insert_by_due-All P row (x ∷ rows) p (q, h) = ground (arith, insert_by_due-All P row rows p h)

sort_by_due-All {κ} :
    (P : WebhookDeliveryRow → Type κ) (rows : List WebhookDeliveryRow)
    → All P rows
    → All P (sort_by_due rows)
unfolding sort_by_due
sort_by_due-All P [] h = tt
sort_by_due-All P (x ∷ rows) (p, h) =
    insert_by_due-All P x (sort_by_due rows) p (sort_by_due-All P rows h)

module _ (locked : String → Bool) (now batch : ℕ) (rows : List WebhookDeliveryRow) where
  pub claim_deliveries-All {κ} :
      (P : WebhookDeliveryRow → Type κ)
      → All P rows
      → All P (claim_deliveries locked now batch rows)
  unfolding claim_deliveries
  claim_deliveries-All P h =
      All-take P batch _ (sort_by_due-All P _ (All-select_of P (is_claimable locked now) rows h))

  pub claim_deliveries-pending :
      All
        (λ (c : WebhookDeliveryRow). delivery_is_pending c.status ≡ true)
        (claim_deliveries locked now batch rows)
  unfolding claim_deliveries
  claim_deliveries-pending =
      All-take _ batch _
        (sort_by_due-All _ _ (All-select _ (is_claimable locked now) rows (λ a h. ground arith)))

pub any-All :
    (p q : WebhookDeliveryRow → Bool) (r : WebhookDeliveryRow) (rows : List WebhookDeliveryRow)
    → any p rows ≡ true
    → All (λ c. p c ≡ true → c ≡ r) rows
    → All (λ c. q c ≡ true) rows
    → q r ≡ true
any-All p q r [] h found qs = absurd (cc)
any-All p q r (x ∷ rows) h (at, found) (qx, qs) = elim (Bool-cases (p x)) [
  | inl hit ↦ subst (λ c. q c ≡ true) (at hit) qx
  | inr miss ↦ any-All p q r rows (ground arith) found qs
]
