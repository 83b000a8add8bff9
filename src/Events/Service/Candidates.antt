-- ===== src/Events/Service/Candidates.antt =====
-- Which briefings the ingestion of an event can match.
use helpan_ai.Prelude.{
  ℕ, String, Bool, true, false, ◌&&◌, Option, none, some, ◌||◌, List, [], ◌∷◌, ◌++◌, map, ◌≡◌, refl,
  sym, ap, ◌∙◌, arith, All, All-map, Any, any-Any, ◌<◌, ◌≢◌, any, ◌==◌, eq_iff, Bool-cases, inl,
  inr,
}
use helpan_ai.World.{World}
use helpan_ai.Store.{Db}
use helpan_ai.Store.Briefings.{BriefingRow, BriefingMatchRow, BriefingStatus, briefing_is_active}
use helpan_ai.Store.Tx.{RailError, Result-cases, ok, err}
use helpan_ai.Matching.Types.{BriefingMatch, MatchableBriefing}
use helpan_ai.Matching.Engine.{real}
use helpan_ai.Matching.Engine.Sources.{IsMatchOf, IsPushedFor, match_event-IsPushedFor}
use helpan_ai.Matching.Engine.Inherited.{IsPoisoned, has_alien, match_event-has_alien}
use helpan_ai.Events.Repo.{
  unexpired, of_account, is_candidate, matchable, list_active_briefings_for_event,
  find_event_by_idempotency_key,
}
use helpan_ai.Events.Service.{
  IngestEventInput, IngestEventResult, IngestEventDeps, IngestClocks, ingest_event, matchable_event,
}
use helpan_ai.Events.Service.Ingest.{candidates, new_event_id, ingest_event-IsIngested}

-- The row is the briefing that a match names.
abbrev pub is_named : String → String → BriefingRow → Bool
is_named id account b = b.id == id && b.account_uuid == account

-- Some row is a candidate of the event, at the time of the selection, and is the named briefing.
abbrev pub has_candidate : List BriefingRow → String → Option String → ℕ → String → String → Bool
has_candidate rows app who now id account =
    any (λ (b : BriefingRow). is_candidate app who now b && is_named id account b) rows

matchable-named :
    (rows : List BriefingRow) (app : String) (who : Option String) (now : ℕ) (m : BriefingMatch)
    → IsMatchOf (list_active_briefings_for_event rows app who now) m
    → has_candidate rows app who now m.briefing_id m.account_uuid ≡ true
unfolding list_active_briefings_for_event matchable
matchable-named [] app who now m h = absurd (ground arith)
matchable-named (b ∷ rows) app who now m h = elim (Bool-cases (is_candidate app who now b)) [
  | inl hit ↦ ground (arith, matchable-named rows app who now m)
  | inr miss ↦ ground (arith, matchable-named rows app who now m)
]

-- What holds of two columns holds of the rows that have the same columns.
All-same_columns :
    {A B : Type 0} (P : String → String → Type 0) (f g : A → String) (f' g' : B → String)
    (xs : List A) (ys : List B)
    → map f xs ≡ map f' ys
    → map g xs ≡ map g' ys
    → All (λ y. P (f' y) (g' y)) ys
    → All (λ x. P (f x) (g x)) xs
All-same_columns P f g f' g' [] ys h k all = tt
All-same_columns P f g f' g' (x ∷ xs) [] h k all = absurd (cc)
All-same_columns P f g f' g' (x ∷ xs) (y ∷ ys) h k (here, all) =
    let first : f x ≡ f' y = ground arith in
    let second : g x ≡ g' y = ground arith in
    (rw (first, second) here, All-same_columns P f g f' g' xs ys (ground arith) (ground arith) all)

All-real :
    (bs : List MatchableBriefing) (ms : List BriefingMatch)
    → All (IsPushedFor bs) (map real ms)
    → All (IsMatchOf bs) ms
All-real bs [] h = tt
All-real bs (m ∷ ms) (here, h) = (here, All-real bs ms h)

real-has_alien : (ms : List BriefingMatch) → has_alien (map real ms) ≡ false
real-has_alien [] = refl
real-has_alien (m ∷ ms) = real-has_alien ms

pub named_both :
    (i id a account : String) → (i == id && a == account) ≡ true → (i ≡ id) × (a ≡ account)
named_both i id a account h = ((eq_iff i id).0 (ground arith), (eq_iff a account).0 (ground arith))

active_only : (s : BriefingStatus) → briefing_is_active s ≡ true → s ≡ BriefingStatus.active
active_only BriefingStatus.active h = refl
active_only BriefingStatus.paused h = absurd (cc)
active_only BriefingStatus.expired h = absurd (cc)
active_only BriefingStatus.revoked h = absurd (cc)

unexpired_after :
    (o : Option ℕ) (expires : ℕ) {now : ℕ}
    → o ≡ some expires
    → unexpired now o ≡ true
    → now < expires
unexpired_after o expires e h = ground arith

of_account_named :
    (o : Option String) (a account : String)
    → o ≡ some a
    → a ≢ ""
    → of_account o account ≡ true
    → account ≡ a
of_account_named o a account e named h = elim (Bool-cases (a == "")) [
  | inl empty ↦ absurd (named ((eq_iff a "").0 empty))
  | inr given ↦
      let run : (a == "" || account == a) ≡ true = ap (λ x. of_account x account) (sym e) ∙ h in
      (eq_iff account a).0 (ground arith)
]

module _ (w : World) (deps : IngestEventDeps) (clocks : IngestClocks) (tx_now : ℕ)
    (input : IngestEventInput) where
  -- A match row names a row that the query selects.
  abbrev pub HasCandidate : List BriefingRow → BriefingMatchRow → Type 0
  HasCandidate rows m =
      has_candidate rows input.app_id input.account_uuid clocks.selected m.briefing_id
        m.account_uuid
      ≡ true

  pub ingest_event-HasCandidate :
      (db : Db) (r : IngestEventResult) (db' : Db)
      → find_event_by_idempotency_key db.events_ingested input.app_id input.idempotency_key ≡ none
      → ingest_event w deps clocks tx_now input db ≡ ok (r, db')
      → (rows : List BriefingMatchRow) × (db'.briefing_matches ≡ db.briefing_matches ++ rows)
        × All (HasCandidate db.briefings) rows
  ingest_event-HasCandidate db r db' fresh h =
      let done = ingest_event-IsIngested w deps clocks tx_now input db r db' fresh h in
      let chosen = candidates w deps clocks tx_now input db in
      let pushed =
        match_event-IsPushedFor deps.platform clocks.matched
          (matchable_event input (new_event_id w deps clocks tx_now input db)) chosen
          (map real done.ms) done.matched in
      (
        done.rows,
        done.appended,
        All-same_columns
            (λ id account.
              has_candidate db.briefings input.app_id input.account_uuid clocks.selected id account
              ≡ true)
            (λ (m : BriefingMatchRow). m.briefing_id) (λ m. m.account_uuid)
            (λ (m : BriefingMatch). m.briefing_id) (λ m. m.account_uuid) done.rows done.ms
            done.briefings_named done.accounts_named
            (All-map _ _ done.ms
              (matchable-named db.briefings input.app_id input.account_uuid clocks.selected)
              (All-real chosen done.ms pushed)),
      )

  -- A briefing that the event may match.
  abbrev pub IsEligible : BriefingRow → Type 0
  IsEligible b =
      (b.app_id ≡ input.app_id)
      × (b.status ≡ BriefingStatus.active)
      × ((expires : ℕ) → b.expires_at ≡ some expires → clocks.selected < expires)
      × ((account : String)
          → input.account_uuid ≡ some account
          → account ≢ ""
          → b.account_uuid ≡ account)

  -- A match row names some eligible briefing of the table.
  abbrev pub IsForEligible : List BriefingRow → BriefingMatchRow → Type 0
  IsForEligible rows m =
      Any (λ b. IsEligible b × (b.id ≡ m.briefing_id) × (b.account_uuid ≡ m.account_uuid)) rows

  candidate-IsEligible :
      (b : BriefingRow)
      → is_candidate input.app_id input.account_uuid clocks.selected b ≡ true
      → IsEligible b
  candidate-IsEligible b h = (
    (eq_iff b.app_id input.app_id).0 (ground arith),
    active_only b.status (ground arith),
    λ expires e. unexpired_after b.expires_at expires e (ground arith),
    λ account e named.
        of_account_named input.account_uuid account b.account_uuid e named (ground arith),
  )

  HasCandidate-IsForEligible :
      (rows : List BriefingRow) (m : BriefingMatchRow) → HasCandidate rows m → IsForEligible rows m
  HasCandidate-IsForEligible rows m h =
      any-Any _ _ rows
        (λ b hit.
          let (same, account) =
            named_both b.id m.briefing_id b.account_uuid m.account_uuid (ground arith) in
          (candidate-IsEligible b (ground arith), same, account))
        h

  -- Ingesting an event whose key is new adds match rows behind those that are there, and each of
  -- them names a briefing of the table that is active, has not expired at the time of the
  -- selection, and is of the event's app and, where the event has one that is not empty, of its
  -- account.
  pub ingest_event-IsForEligible :
      (db : Db) (r : IngestEventResult) (db' : Db)
      → find_event_by_idempotency_key db.events_ingested input.app_id input.idempotency_key ≡ none
      → ingest_event w deps clocks tx_now input db ≡ ok (r, db')
      → (rows : List BriefingMatchRow) × (db'.briefing_matches ≡ db.briefing_matches ++ rows)
        × All (IsForEligible db.briefings) rows
  ingest_event-IsForEligible db r db' fresh h =
      let (rows, appended, all) = ingest_event-HasCandidate db r db' fresh h in
      (
        rows,
        appended,
        All-map (HasCandidate db.briefings) (IsForEligible db.briefings) rows
            (HasCandidate-IsForEligible db.briefings) all,
      )

  -- Where the domain of some candidate briefing is a name that every object inherits, an event
  -- whose key is new is not ingested: the ingestion fails.
  pub ingest_event-poisoned :
      (db : Db)
      → find_event_by_idempotency_key db.events_ingested input.app_id input.idempotency_key ≡ none
      → IsPoisoned (
          list_active_briefings_for_event db.briefings input.app_id input.account_uuid
            clocks.selected)
      → (e : RailError) × (ingest_event w deps clocks tx_now input db ≡ err e)
  ingest_event-poisoned db fresh poisoned =
      elim (Result-cases (ingest_event w deps clocks tx_now input db)) [
        | inr failed ↦ failed
        | inl ((r, db'), h) ↦
            let done = ingest_event-IsIngested w deps clocks tx_now input db r db' fresh h in
            let spoiled =
              match_event-has_alien deps.platform clocks.matched
                (matchable_event input (new_event_id w deps clocks tx_now input db)) _
                (map real done.ms) poisoned done.matched in
            absurd (ground (arith, sym spoiled ∙ real-has_alien done.ms))
      ]
