-- ===== src/Events/Service/Matches.antt =====
-- What the loop over the matches of an event leaves in the database.
use Prim.Native.String.{◌++◌ as concat}
use mathlib.Core.List.{append_assoc}
use helpan_ai.Prelude.{
  ℕ, suc, ◌+◌, String, Option, none, some, List, [], ◌∷◌, ◌++◌, map, ◌≡◌, refl, sym, ap, ◌∙◌, arith,
  All,
}
use mathlib.Core.Path.{subst}
use helpan_ai.World.{World}
use helpan_ai.Store.{Db}
use helpan_ai.Store.Rows.{KafkaOutboxRow}
use helpan_ai.Store.Briefings.{BriefingMatchRow, WebhookDeliveryRow}
use helpan_ai.Store.Tx.{Result, ok, ◌>>=◌, pure, bind-eq-ok}
use helpan_ai.Outbox.Enqueue.{enqueue_outbox_entry, outbox_row}
use helpan_ai.Matching.Types.{BriefingMatch}
use helpan_ai.Matching.Engine.{Pushed, real, alien}
use helpan_ai.Events.Repo.{insert_briefing_match, enqueue_webhook_delivery, match_row, delivery_row}
use helpan_ai.Json.{get_field}
use helpan_ai.Events.Service.Written.{IsAnnouncement, AreWritten}
use helpan_ai.Events.Service.{
  briefing_matched_payload, IngestEventInput, IngestClocks, deliver, delivery_input, match_input,
  matched_event, mint, record_match, record_matches,
}

module _ (w : World) (tx_now : ℕ) (input : IngestEventInput) (id : String)
    (url : Option String) where
  -- The database after one match.
  abbrev delivered_db : ℕ → BriefingMatch → Option String → Db → Db
  delivered_db occurred m none db = db
  delivered_db occurred m (some to) db =
      let delivery = concat "whd_" (w.ulid db.minted) in
      enqueue_webhook_delivery w tx_now (delivery_input input id occurred m to delivery)
        (record db { minted = db.minted + 1 })

  abbrev delivery_id : Option String → Db → Option String
  delivery_id none db = none
  delivery_id (some to) db = some (concat "whd_" (w.ulid db.minted))

  abbrev inserted_db : BriefingMatch → Option String → Db → Db
  inserted_db m delivery db =
      insert_briefing_match w tx_now (match_input id m (concat "bmt_" (w.ulid db.minted)) delivery)
        (record db { minted = db.minted + 1 })

  abbrev event_row_of : ℕ → BriefingMatch → Db → KafkaOutboxRow
  event_row_of occurred m db =
      outbox_row w tx_now (concat "kof_" (w.ulid db.minted)) (matched_event input id occurred m)

  abbrev enqueued_db : ℕ → BriefingMatch → Db → Db
  enqueued_db occurred m db = record db {
    kafka_outbox = db.kafka_outbox ++ event_row_of occurred m db ∷ [];
    minted = db.minted + 1;
  }

  abbrev pub after_match : ℕ → BriefingMatch → Db → Db
  after_match occurred m db =
      enqueued_db occurred m (inserted_db m (delivery_id url db) (delivered_db occurred m url db))

record_match-real :
    (w : World) (tx_now : ℕ) (input : IngestEventInput) (id : String) (url : Option String)
    (occurred : ℕ) (m : BriefingMatch) (db : Db)
    → record_match w tx_now input id occurred url (real m) db
      ≡ ok (m, after_match w tx_now input id url occurred m db)
unfolding record_match deliver mint enqueue_outbox_entry
record_match-real w tx_now input id none occurred m db = refl
record_match-real w tx_now input id (some to) occurred m db = refl

-- What the loop has added for its matches, and what it has left alone.
pub record IsAdded (w : World) (tx_now : ℕ) (input : IngestEventInput) (id : String)
    (url : Option String) (times : ℕ → ℕ) (i : ℕ) (ms : List BriefingMatch) (db db' : Db)
    : Type 0 where
  pub rows : List BriefingMatchRow
  pub deliveries : List WebhookDeliveryRow
  pub entries : List KafkaOutboxRow
  pub written : AreWritten w input id url times i ms rows deliveries entries
  pub appended : db'.briefing_matches ≡ db.briefing_matches ++ rows
  pub briefings_named :
      map (λ (r : BriefingMatchRow). r.briefing_id) rows
      ≡ map (λ (m : BriefingMatch). m.briefing_id) ms
  pub accounts_named :
      map (λ (r : BriefingMatchRow). r.account_uuid) rows
      ≡ map (λ (m : BriefingMatch). m.account_uuid) ms
  pub of_event : All (λ (r : BriefingMatchRow). r.event_id ≡ id) rows
  pub outbox_appended : db'.kafka_outbox ≡ db.kafka_outbox ++ entries
  pub webhooks_appended : db'.webhook_deliveries ≡ db.webhook_deliveries ++ deliveries
  pub events_same : db'.events_ingested ≡ db.events_ingested
  pub briefings_same : db'.briefings ≡ db.briefings
  pub audit_same : db'.audit_log ≡ db.audit_log

append_none {ℓ} : {A : Type ℓ} (xs : List A) → xs ≡ xs ++ []
append_none [] = refl
append_none (x ∷ xs) = ap (λ ys. x ∷ ys) (append_none xs)

module _ (w : World) (tx_now : ℕ) (input : IngestEventInput) (id : String) (times : ℕ → ℕ) where
  IsAdded-none :
      (url : Option String) (i : ℕ) (db : Db) → IsAdded w tx_now input id url times i [] db db
  IsAdded-none url i db = record {
    rows = [];
    deliveries = [];
    entries = [];
    written = (refl, (refl, refl));
    appended = append_none db.briefing_matches;
    briefings_named = refl;
    accounts_named = refl;
    of_event = tt;
    outbox_appended = append_none db.kafka_outbox;
    webhooks_appended = append_none db.webhook_deliveries;
    events_same = refl;
    briefings_same = refl;
    audit_same = refl;
  }

  announced :
      (occurred : ℕ) (m : BriefingMatch)
      → IsAnnouncement w input id occurred m
          (w.jsonb (briefing_matched_payload input id occurred m))
  unfolding briefing_matched_payload get_field
  announced occurred m = (_, refl, refl, refl, refl, refl, refl, refl, refl)

  IsAdded-next :
      (url : Option String) (i : ℕ) (m : BriefingMatch) (ms : List BriefingMatch) (db db' : Db)
      → IsAdded w tx_now input id url times
          (suc i)
          ms
          (after_match w tx_now input id url (times i) m db)
          db'
      → IsAdded w tx_now input id url times i (m ∷ ms) db db'
  unfolding insert_briefing_match enqueue_webhook_delivery match_row delivery_row outbox_row
  IsAdded-next none i m ms db db' h =
      let row = match_row w tx_now (match_input id m (concat "bmt_" (w.ulid db.minted)) none) in
      let entry =
        outbox_row w tx_now (concat "kof_" (w.ulid (db.minted + 1)))
          (matched_event input id (times i) m) in
      record {
        rows = row ∷ h.rows;
        deliveries = h.deliveries;
        entries = entry ∷ h.entries;
        written = (
          row,
          h.rows,
          [],
          h.deliveries,
          entry,
          h.entries,
          refl,
          refl,
          refl,
          (refl, refl, refl, refl, refl),
          (refl, refl),
          (refl, refl, refl, refl, announced (times i) m),
          h.written,
        );
        appended = h.appended ∙ append_assoc db.briefing_matches _ _;
        briefings_named = ap (λ names. m.briefing_id ∷ names) h.briefings_named;
        accounts_named = ap (λ names. m.account_uuid ∷ names) h.accounts_named;
        of_event = (refl, h.of_event);
        outbox_appended = h.outbox_appended ∙ append_assoc db.kafka_outbox _ _;
        webhooks_appended = h.webhooks_appended;
        events_same = h.events_same;
        briefings_same = h.briefings_same;
        audit_same = h.audit_same;
      }
  IsAdded-next (some to) i m ms db db' h =
      let delivery = concat "whd_" (w.ulid db.minted) in
      let row =
        match_row w tx_now
          (match_input id m (concat "bmt_" (w.ulid (db.minted + 1))) (some delivery)) in
      let sent = delivery_row w tx_now (delivery_input input id (times i) m to delivery) in
      let entry =
        outbox_row w tx_now (concat "kof_" (w.ulid (db.minted + 1 + 1)))
          (matched_event input id (times i) m) in
      record {
        rows = row ∷ h.rows;
        deliveries = sent ∷ h.deliveries;
        entries = entry ∷ h.entries;
        written = (
          row,
          h.rows,
          sent ∷ [],
          h.deliveries,
          entry,
          h.entries,
          refl,
          refl,
          refl,
          (refl, refl, refl, refl, refl),
          (sent, refl, refl, (refl, refl, refl, refl, refl, refl, refl, announced (times i) m)),
          (refl, refl, refl, refl, announced (times i) m),
          h.written,
        );
        appended = h.appended ∙ append_assoc db.briefing_matches _ _;
        briefings_named = ap (λ names. m.briefing_id ∷ names) h.briefings_named;
        accounts_named = ap (λ names. m.account_uuid ∷ names) h.accounts_named;
        of_event = (refl, h.of_event);
        outbox_appended = h.outbox_appended ∙ append_assoc db.kafka_outbox _ _;
        webhooks_appended = h.webhooks_appended ∙ append_assoc db.webhook_deliveries _ _;
        events_same = h.events_same;
        briefings_same = h.briefings_same;
        audit_same = h.audit_same;
      }

record_match-alien :
    (w : World) (tx_now : ℕ) (input : IngestEventInput) (id : String) (url : Option String)
    (occurred : ℕ) (db : Db) (m : BriefingMatch) (db' : Db)
    → record_match w tx_now input id occurred url alien db ≡ ok (m, db')
    → ⊥
unfolding record_match
record_match-alien w tx_now input id url occurred db m db' h = cc

ok-eq {ℓ} :
    {A B : Type ℓ} (r : Result (A × B)) (a a' : A) (b b' : B)
    → r ≡ ok (a, b)
    → r ≡ ok (a', b')
    → (a ≡ a') × (b ≡ b')
ok-eq r a a' b b' h k = (cc, cc)

module _ (w : World) (tx_now : ℕ) (input : IngestEventInput) (id : String) (clocks : IngestClocks)
    (url : Option String) where
  -- The loop has run over real matches only.
  pub record_matches-IsAdded :
      (i : ℕ) (pushed : List Pushed) (db : Db) (ms : List BriefingMatch) (db' : Db)
      → record_matches w tx_now input id clocks url i pushed db ≡ ok (ms, db')
      → (pushed ≡ map real ms) × IsAdded w tx_now input id url clocks.occurred i ms db db'
  unfolding record_matches
  record_matches-IsAdded i [] db ms db' h =
      let none_left : [] ≡ ms = ground arith in
      let same : db ≡ db' = ground arith in
      (
        ap (map real) none_left,
        subst (λ d. IsAdded w tx_now input id url clocks.occurred i ms db d) same
            (subst (λ l. IsAdded w tx_now input id url clocks.occurred i l db db) none_left
              (IsAdded-none w tx_now input id clocks.occurred url i db)),
      )
  record_matches-IsAdded i (alien ∷ rest) db ms db' h =
      let (m, db1, threw, h1) =
        bind-eq-ok (record_match w tx_now input id (clocks.occurred i) url alien)
          (λ recorded.
            record_matches w tx_now input id clocks url (suc i) rest >>= (λ l. pure (recorded ∷ l)))
          db h in
      absurd (record_match-alien w tx_now input id url (clocks.occurred i) db m db1 threw)
  record_matches-IsAdded i (real m ∷ rest) db ms db' h =
      let occurred = clocks.occurred i in
      let (m', db1, first, h1) =
        bind-eq-ok (record_match w tx_now input id occurred url (real m))
          (λ recorded.
            record_matches w tx_now input id clocks url (suc i) rest >>= (λ l. pure (recorded ∷ l)))
          db h in
      let (same_match, same_db) =
        ok-eq (record_match w tx_now input id occurred url (real m) db) m m' _ db1
          (record_match-real w tx_now input id url occurred m db) first in
      let (later, db2, runs, ends) =
        bind-eq-ok (record_matches w tx_now input id clocks url (suc i) rest) (λ l. pure (m' ∷ l))
          db1 h1 in
      let (all, added) = record_matches-IsAdded (suc i) rest db1 later db2 runs in
      let (same_list, same_end) = ok-eq _ (m' ∷ later) ms db2 db' refl ends in
      let list : m ∷ later ≡ ms = ap (λ x. x ∷ later) same_match ∙ same_list in
      let grown : IsAdded w tx_now input id url clocks.occurred (suc i) later
          (after_match w tx_now input id url occurred m db) db2 =
        subst (λ d. IsAdded w tx_now input id url clocks.occurred (suc i) later d db2) (sym same_db)
          added in
      (
        ap (λ l. real m ∷ l) all ∙ ap (map real) list,
        subst (λ d. IsAdded w tx_now input id url clocks.occurred i ms db d) same_end
            (subst (λ l. IsAdded w tx_now input id url clocks.occurred i l db db2) list
              (IsAdded-next w tx_now input id clocks.occurred url i m later db db2 grown)),
      )
