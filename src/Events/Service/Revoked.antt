-- ===== src/Events/Service/Revoked.antt =====
-- A revoked briefing and the ingestion of events.
use helpan_ai.Prelude.{
  ℕ, String, false, ◌&&◌, Option, none, List, [], ◌∷◌, ◌++◌, ◌≡◌, refl, sym, ap, ◌∙◌, arith, All,
  All-map, update_where, ◌==◌, Bool-cases, inl, inr,
}
use mathlib.Core.Path.{subst}
use helpan_ai.World.{World}
use helpan_ai.Store.{Db}
use helpan_ai.Store.Briefings.{BriefingRow, BriefingMatchRow}
use helpan_ai.Store.Tx.{ok}
use helpan_ai.Briefings.Repo.{is_own_briefing, revoked_briefing}
use helpan_ai.Briefings.Service.{AuditContext, BriefingDto, revoke_briefing}
use helpan_ai.Briefings.Revocation.{revoke_briefing-briefings}
use helpan_ai.Events.Repo.{find_event_by_idempotency_key}
use helpan_ai.Events.Service.{
  IngestEventInput, IngestEventResult, IngestEventDeps, IngestClocks, ingest_event,
}
use helpan_ai.Events.Service.Candidates.{
  has_candidate, named_both, HasCandidate, ingest_event-HasCandidate,
}

revoked-no_candidate :
    (rows : List BriefingRow) (app : String) (who : Option String) (at : ℕ) (id account : String)
    (now : ℕ)
    → has_candidate
        (update_where (is_own_briefing id account) (revoked_briefing now) rows)
        app
        who
        at
        id
        account
      ≡ false
unfolding revoked_briefing
revoked-no_candidate [] app who at id account now = refl
revoked-no_candidate (b ∷ rows) app who at id account now =
    elim (Bool-cases (is_own_briefing id account b)) [
      | inl hit ↦ ground (arith, revoked-no_candidate rows app who at id account now)
      | inr miss ↦ ground (arith, revoked-no_candidate rows app who at id account now)
    ]

module _ (w : World) (deps : IngestEventDeps) (clocks : IngestClocks) (tx_now : ℕ)
    (input : IngestEventInput) where
  abbrev pub IsNotOf : String → String → BriefingMatchRow → Type 0
  IsNotOf id account m = (m.briefing_id == id && m.account_uuid == account) ≡ false

  candidate-IsNotOf :
      (rows : List BriefingRow) (now : ℕ) (id account : String) (m : BriefingMatchRow)
      → HasCandidate w deps clocks tx_now input
          (update_where (is_own_briefing id account) (revoked_briefing now) rows)
          m
      → IsNotOf id account m
  candidate-IsNotOf rows now id account m h =
      elim (Bool-cases (m.briefing_id == id && m.account_uuid == account)) [
        | inr apart ↦ apart
        | inl both ↦
            let (same_id, same_account) = named_both m.briefing_id id m.account_uuid account both in
            absurd (
              ground (
                arith,
                sym h
                    ∙ ap
                        (λ i.
                          has_candidate
                            (update_where (is_own_briefing id account) (revoked_briefing now) rows)
                            input.app_id input.account_uuid clocks.selected i m.account_uuid)
                        same_id
                    ∙ ap
                        (λ a.
                          has_candidate
                            (update_where (is_own_briefing id account) (revoked_briefing now) rows)
                            input.app_id input.account_uuid clocks.selected id a)
                        same_account
                    ∙ revoked-no_candidate rows input.app_id input.account_uuid clocks.selected id
                        account now,
              ))
      ]

  -- When a briefing's revocation has returned, ingesting an event whose key is new adds match rows
  -- behind those that are there, and none of them is of the revoked briefing.
  pub revoke-ingest_event :
      (audit : AuditContext) (id : String) (now tx_then : ℕ) (db : Db) (o : Option BriefingDto)
      (db1 : Db) (r : IngestEventResult) (db2 : Db)
      → revoke_briefing w audit id now tx_then db ≡ ok (o, db1)
      → find_event_by_idempotency_key db1.events_ingested input.app_id input.idempotency_key ≡ none
      → ingest_event w deps clocks tx_now input db1 ≡ ok (r, db2)
      → (rows : List BriefingMatchRow) × (db2.briefing_matches ≡ db1.briefing_matches ++ rows)
        × All (IsNotOf id audit.account_uuid) rows
  revoke-ingest_event audit id now tx_then db o db1 r db2 revokes fresh h =
      let (rows, added, all) =
        ingest_event-HasCandidate w deps clocks tx_now input db1 r db2 fresh h in
      (
        rows,
        added,
        All-map _ _ rows
            (λ m c. candidate-IsNotOf db.briefings now id audit.account_uuid m (
              subst (λ b. HasCandidate w deps clocks tx_now input b m)
                (revoke_briefing-briefings w audit id now tx_then db o db1 revokes) c))
            all,
      )
