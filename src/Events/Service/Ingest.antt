-- ===== src/Events/Service/Ingest.antt =====
-- What the ingestion of an event has done when it returns.
use Prim.Native.String.{◌++◌ as concat}
use helpan_ai.Prelude.{
  ℕ, ◌+◌, String, true, false, none, some, List, [], ◌∷◌, ◌++◌, map, ◌≡◌, refl, sym, ap, ◌∙◌, arith,
  length, last, is_some, All, any, find, find-append_fresh, any-find-none, find-update_where,
  eq_refl, Bool-cases, inl, inr, update_where, if◌then◌else◌,
}
use helpan_ai.World.{World}
use helpan_ai.Store.{Db}
use helpan_ai.Json.{Fields, obj, arr, nat, string_list, get_field}
use helpan_ai.Store.Rows.{AuditLogRow, KafkaOutboxRow}
use helpan_ai.Store.Briefings.{EventRow, BriefingMatchRow, WebhookDeliveryRow}
use helpan_ai.Store.Tx.{ok, bind-eq-ok, lift-bind-eq-ok}
use helpan_ai.Audit.{append_audit_entry, insert_row, audit_row}
use helpan_ai.Audit.Hash.{AuditEntry}
use helpan_ai.Audit.Chain.{append_audit_entry-ok}
use helpan_ai.Matching.Types.{BriefingMatch, MatchableBriefing}
use helpan_ai.Matching.Engine.{real, match_event_against_briefings}
use helpan_ai.Events.Repo.{
  insert_event, event_row, has_key, event_conflicts, find_event_by_idempotency_key,
  list_active_briefings_for_event, has_event_id, closed_event, mark_event_match_status,
}
use helpan_ai.Events.Service.{
  IngestEventInput, IngestEventResult, IngestEventDeps, IngestClocks, event_input, matchable_event,
  matches_of, ingested_entry, mint, process_event, ingest_new, ingest_event, record_matches,
  replay_or,
}
use helpan_ai.Events.Service.Written.{AreWritten}
use helpan_ai.Events.Service.Matches.{record_matches-IsAdded}

module _ (w : World) (deps : IngestEventDeps) (clocks : IngestClocks) (tx_now : ℕ)
    (input : IngestEventInput) where
  abbrev pub new_event_id : Db → String
  new_event_id db = concat "evt_" (w.ulid db.minted)

  abbrev new_event_row : Db → EventRow
  new_event_row db = event_row w tx_now (event_input clocks input (new_event_id db))

  abbrev pub candidates : Db → List MatchableBriefing
  candidates db =
      list_active_briefings_for_event db.briefings input.app_id input.account_uuid clocks.selected

  -- The audit entry of an ingestion: of the event, with the number and the briefings of its
  -- matches.
  abbrev pub IsReport : String → List BriefingMatch → AuditEntry → Type 0
  IsReport id ms entry =
      (entry.action ≡ "event.ingested")
      × (entry.resource_id ≡ some id)
      × (entry.app_id ≡ some input.app_id)
      × (entry.outcome ≡ "success")
      × (fields : Fields) × (entry.detail ≡ some (obj fields))
      × (get_field "match_count" fields ≡ some (nat (length ms)))
      × (get_field "matched_briefings" fields
          ≡ some (arr (string_list (map (λ (m : BriefingMatch). m.briefing_id) ms))))

  -- The one row that the audit log has more, linked to the newest.
  abbrev pub IsAppended : AuditEntry → Db → Db → Type 0
  IsAppended entry db db' =
      (latest : AuditLogRow) × (ulid : String) × (last db.audit_log ≡ some latest)
      × (db'.audit_log ≡ insert_row (audit_row w tx_now ulid latest.entry_hash entry) db.audit_log)

  -- A new event: the engine's matches `ms` on the candidates, and what was written for them.
  pub record IsIngested (db : Db) (r : IngestEventResult) (db' : Db) : Type 0 where
    pub ms : List BriefingMatch
    pub rows : List BriefingMatchRow
    pub deliveries : List WebhookDeliveryRow
    pub entries : List KafkaOutboxRow
    pub entry : AuditEntry
    pub matched :
        match_event_against_briefings deps.platform clocks.matched
          (matchable_event input (new_event_id db))
          (candidates db)
        ≡ ok (map real ms)
    pub answered : r ≡ record {
      event_id = new_event_id db;
      accepted_at = tx_now;
      match_count = length ms;
      replayed = false;
    }
    pub appended : db'.briefing_matches ≡ db.briefing_matches ++ rows
    pub briefings_named :
        map (λ (m : BriefingMatchRow). m.briefing_id) rows
        ≡ map (λ (m : BriefingMatch). m.briefing_id) ms
    pub accounts_named :
        map (λ (m : BriefingMatchRow). m.account_uuid) rows
        ≡ map (λ (m : BriefingMatch). m.account_uuid) ms
    pub of_event : All (λ (m : BriefingMatchRow). m.event_id ≡ new_event_id db) rows
    pub written :
        AreWritten w input
          (new_event_id db)
          (deps.resolve input.app_id)
          clocks.occurred
          0
          ms
          rows
          deliveries
          entries
    pub outbox_appended : db'.kafka_outbox ≡ db.kafka_outbox ++ entries
    pub webhooks_appended : db'.webhook_deliveries ≡ db.webhook_deliveries ++ deliveries
    pub reported : IsReport (new_event_id db) ms entry
    pub audited : IsAppended entry db db'
    pub stored :
        find_event_by_idempotency_key db'.events_ingested input.app_id input.idempotency_key
        ≡ some (closed_event (length ms) (new_event_row db))

  insert_event-ok :
      (id : String) (db : Db) (row : EventRow) (db' : Db)
      → insert_event w tx_now (event_input clocks input id) db ≡ ok (row, db')
      → (row ≡ event_row w tx_now (event_input clocks input id))
        × (db' ≡ record db { events_ingested = db.events_ingested ++ row ∷ [] })
  unfolding insert_event
  insert_event-ok id db row db' h =
      elim (Bool-cases (any (event_conflicts (event_input clocks input id)) db.events_ingested)) [
        | inl taken ↦ absurd (ground arith)
        | inr free ↦ (ground arith, ground arith)
      ]

  -- Marking the event's status, as a read by its key sees it.
  marked-stored :
      (n : ℕ) (id : String) (rows : List EventRow)
      → find (has_key input.app_id input.idempotency_key) rows ≡ none
      → find (has_key input.app_id input.idempotency_key) (
          update_where
            (has_event_id id)
            (closed_event n)
            (rows ++ event_row w tx_now (event_input clocks input id) ∷ []))
        ≡ some (closed_event n (event_row w tx_now (event_input clocks input id)))
  unfolding closed_event event_row
  marked-stored n id rows h =
      let key = has_key input.app_id input.idempotency_key in
      let row = event_row w tx_now (event_input clocks input id) in
      find-update_where key (has_event_id id) (closed_event n) (rows ++ row ∷ []) row (λ x. refl)
        (find-append_fresh key rows row (any-find-none key rows h)
          (ground (arith, eq_refl input.app_id, eq_refl input.idempotency_key)))
      ∙ ap (λ b. some (if b then closed_event n row else row)) (eq_refl id)

  abbrev inserted_db : Db → Db
  inserted_db db = record db {
    events_ingested = db.events_ingested ++ new_event_row db ∷ [];
    minted = db.minted + 1;
  }

  process_event-IsIngested :
      (db : Db) (r : IngestEventResult) (db' : Db)
      → find (has_key input.app_id input.idempotency_key) db.events_ingested ≡ none
      → process_event w deps clocks tx_now input (new_event_row db) (inserted_db db) ≡ ok (r, db')
      → IsIngested db r db'
  unfolding process_event mark_event_match_status find_event_by_idempotency_key event_row
      ingested_entry get_field
  process_event-IsIngested db r db' fresh h =
      let id = new_event_id db in
      let url = deps.resolve input.app_id in
      let (pushed, runs, h2) =
        lift-bind-eq-ok (matches_of deps clocks input id (inserted_db db)) _ (inserted_db db) h in
      let (ms, db2, loops, h3) =
        bind-eq-ok (record_matches w tx_now input id clocks url 0 pushed) _ (inserted_db db) h2 in
      let (all, added) =
        record_matches-IsAdded w tx_now input id clocks url 0 pushed (inserted_db db) ms db2
          loops in
      let (entry, db3, audits, h4) =
        bind-eq-ok (append_audit_entry w tx_now (ingested_entry input id (is_some url) ms)) _
          (mark_event_match_status id (length ms) db2) h3 in
      let (latest, newest, same) =
        append_audit_entry-ok w tx_now (ingested_entry input id (is_some url) ms)
          (mark_event_match_status id (length ms) db2) audits in
      let ends : db' ≡ db3 = cc in
      let final = ends ∙ same in
      record {
        ms = ms;
        rows = added.rows;
        deliveries = added.deliveries;
        entries = added.entries;
        entry = ingested_entry input id (is_some url) ms;
        written = added.written;
        matched = runs ∙ ap (λ l. ok l) all;
        answered = cc;
        appended = ap (λ (d : Db). d.briefing_matches) final ∙ added.appended;
        briefings_named = added.briefings_named;
        accounts_named = added.accounts_named;
        of_event = added.of_event;
        outbox_appended = ap (λ (d : Db). d.kafka_outbox) final ∙ added.outbox_appended;
        webhooks_appended = ap (λ (d : Db). d.webhook_deliveries) final ∙ added.webhooks_appended;
        reported = (refl, refl, refl, refl, _, refl, refl, refl);
        audited = (
          latest,
          w.ulid db2.minted,
          ap last (sym added.audit_same) ∙ newest,
          ap (λ (d : Db). d.audit_log) final
              ∙ ap
                  (insert_row (
                    audit_row w tx_now (w.ulid db2.minted) latest.entry_hash
                      (ingested_entry input id (is_some url) ms)))
                  added.audit_same,
        );
        stored =
            ap (λ (d : Db). find (has_key input.app_id input.idempotency_key) d.events_ingested)
              final
            ∙ ap
                (λ rows.
                  find (has_key input.app_id input.idempotency_key)
                    (update_where (has_event_id id) (closed_event (length ms)) rows))
                added.events_same
            ∙ marked-stored (length ms) id db.events_ingested fresh;
      }

  pub ingest_event-IsIngested :
      (db : Db) (r : IngestEventResult) (db' : Db)
      → find_event_by_idempotency_key db.events_ingested input.app_id input.idempotency_key ≡ none
      → ingest_event w deps clocks tx_now input db ≡ ok (r, db')
      → IsIngested db r db'
  unfolding ingest_event ingest_new mint find_event_by_idempotency_key
  ingest_event-IsIngested db r db' fresh h =
      let key = has_key input.app_id input.idempotency_key in
      let run : ingest_new w deps clocks tx_now input db ≡ ok (r, db') =
        ap (λ o. replay_or (ingest_new w deps clocks tx_now input) o db) (sym fresh) ∙ h in
      let minted : Db = record db { minted = db.minted + 1 } in
      let (row, db1, inserts, processes) =
        bind-eq-ok (insert_event w tx_now (event_input clocks input (new_event_id db)))
          (λ event. process_event w deps clocks tx_now input event) minted run in
      let (row_eq, db_eq) = insert_event-ok (new_event_id db) minted row db1 inserts in
      process_event-IsIngested db r db' fresh (
        ap (λ event. process_event w deps clocks tx_now input event (inserted_db db)) (sym row_eq)
        ∙ ap (process_event w deps clocks tx_now input row) (
            ap
              (λ event. record db {
                events_ingested = db.events_ingested ++ event ∷ [];
                minted = db.minted + 1;
              })
              (sym row_eq)
            ∙ sym db_eq)
        ∙ processes)

  -- After an event whose key was new has been ingested, an ingestion with its app and key, whatever
  -- else it carries and whatever the clocks say, answers the same event with no matches, as
  -- replayed, and leaves the database as it is.
  pub ingest_event-twice :
      (db : Db) (r : IngestEventResult) (db' : Db)
      → find_event_by_idempotency_key db.events_ingested input.app_id input.idempotency_key ≡ none
      → ingest_event w deps clocks tx_now input db ≡ ok (r, db')
      → (later : World) (others : IngestEventDeps) (times : IngestClocks) (tx_later : ℕ)
        (again : IngestEventInput)
      → again.app_id ≡ input.app_id
      → again.idempotency_key ≡ input.idempotency_key
      → ingest_event later others times tx_later again db'
        ≡ ok (record r { match_count = 0; replayed = true }, db')
  unfolding ingest_event closed_event event_row
  ingest_event-twice db r db' fresh h later others times tx_later again app key =
      let done = ingest_event-IsIngested db r db' fresh h in
      let found : find_event_by_idempotency_key db'.events_ingested again.app_id
            again.idempotency_key
          ≡ some (closed_event (length done.ms) (new_event_row db)) =
        ap (λ a. find_event_by_idempotency_key db'.events_ingested a again.idempotency_key) app
        ∙ ap (find_event_by_idempotency_key db'.events_ingested input.app_id) key
        ∙ done.stored in
      ap (λ o. replay_or (ingest_new later others times tx_later again) o db') found
      ∙ ap (λ (x : IngestEventResult). ok (record x { match_count = 0; replayed = true }, db'))
          (sym done.answered)
