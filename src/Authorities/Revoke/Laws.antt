-- ===== src/Authorities/Revoke/Laws.antt =====
-- What a revocation leaves, and what it answers.
use helpan_ai.Prelude.{
  ℕ, String, true, false, none, some, ◌≡◌, sym, ap, ◌∙◌, arith, ◌&&◌, not, eq_iff, find-admits,
  if◌then◌else◌, Option-cases, inl, inr, find,
}
use mathlib.Core.Path.{subst}
use helpan_ai.World.{World}
use helpan_ai.Store.{Db}
use helpan_ai.Store.Rows.{DelegatedAuthorityRow}
use helpan_ai.Store.Tx.{Result-cases, RailError, coded, ok, err, pure, bind-eq-ok}
use helpan_ai.Journal.{IsRecorded, IsRecorded-of_run}
use helpan_ai.Authorities.Types.{
  AuthorityAuditContext, AuthorityDto, to_dto, from_console, token_revoked, token_invalid_signature,
}
use helpan_ai.Authorities.Repo.{
  RevokeAuthorityPatch, get_authority_by_id, revoked_row, is_active_with_id,
  revoke_active_authority,
}
use helpan_ai.Authorities.Repo.Keys.{HasUniqueIds, revoke_rows, get_authority_by_id-revoke_rows}
use helpan_ai.Authorities.Validate.{
  TokenVerdict, ValidateAuthorityArgs, ValidateAuthorityResult, names, reject, validate_row,
  validate_authority,
}
use helpan_ai.Authorities.Revoke.{
  RevokeAuthorityArgs, is_account, check_revocable, revoke_entry, revoked_event, persist_revoked,
  revoke_authority,
}

abbrev pub revoke_patch : RevokeAuthorityArgs → ℕ → RevokeAuthorityPatch
revoke_patch args now = record { reason = args.reason; detail = args.detail; revoked_at = now }

abbrev pub with_revoked : String → RevokeAuthorityPatch → Db → Db
with_revoked id patch db = record db {
  delegated_authorities = revoke_rows id patch db.delegated_authorities;
}

-- The row that was active, and all that its revocation writes.
abbrev pub IsRevoked :
    World
    → AuthorityAuditContext
    → String
    → RevokeAuthorityArgs
    → ℕ
    → ℕ
    → Db
    → AuthorityDto
    → Db
    → Type 0
IsRevoked w audit id args now tx_now db dto db' =
    (row : DelegatedAuthorityRow) × (find (is_active_with_id id) db.delegated_authorities
      ≡ some row)
    × (dto ≡ to_dto (revoked_row (revoke_patch args now) row) none)
    × IsRecorded w tx_now (revoke_entry audit args id (revoked_row (revoke_patch args now) row))
        (revoked_event args.reason audit.traceparent now (revoked_row (revoke_patch args now) row))
        (with_revoked id (revoke_patch args now) db) db'

revoke_authority-refused :
    (w : World) (audit : AuthorityAuditContext) (id : String) (args : RevokeAuthorityArgs)
    (now tx_now : ℕ) (between : Db → Db) (db : Db) (e : RailError)
    → check_revocable audit now (get_authority_by_id db.delegated_authorities id) ≡ err e
    → revoke_authority w between audit id args now tx_now db ≡ err e
unfolding revoke_authority
revoke_authority-refused w audit id args now tx_now between db e h = ground arith

module _ (w : World) (audit : AuthorityAuditContext) (id : String) (args : RevokeAuthorityArgs)
    (now tx_now : ℕ) where
  persist_revoked-ok :
      (db : Db) (found : DelegatedAuthorityRow) (db' : Db)
      → persist_revoked w audit id args now tx_now db ≡ ok (found, db')
      → IsRevoked w audit id args now tx_now db (to_dto found none) db'
  unfolding persist_revoked revoke_active_authority
  persist_revoked-ok db found db' h =
      elim (Option-cases (find (is_active_with_id id) db.delegated_authorities)) [
        | inl gone ↦ absurd (ground arith)
        | inr (row, active) ↦
            let patch = revoke_patch args now in
            let (same, recorded) =
              IsRecorded-of_run w tx_now (revoke_entry audit args id (revoked_row patch row))
                (revoked_event args.reason audit.traceparent now (revoked_row patch row))
                (revoked_row patch row) (with_revoked id patch db) found db' (ground arith) in
            (row, active, ap (λ r. to_dto r none) same, recorded)
      ]

  module _ (between : Db → Db) (db : Db) (dto : AuthorityDto) (db' : Db)
      (revoked : revoke_authority w between audit id args now tx_now db ≡ ok (dto, db')) where
    pub revoke_authority-IsRevoked : IsRevoked w audit id args now tx_now (between db) dto db'
    unfolding revoke_authority
    revoke_authority-IsRevoked =
        elim (Result-cases
          (check_revocable audit now (get_authority_by_id db.delegated_authorities id))) [
            | inl (existing, checked) ↦
                let (row, db2, persists, returned) =
                  bind-eq-ok (persist_revoked w audit id args now tx_now)
                    (λ r. pure (to_dto r none)) (between db) {b = dto} {t = db'} (ground arith) in
                let returns : to_dto row none ≡ dto = ground arith in
                let ends : db2 ≡ db' = ground arith in
                subst (λ d. IsRevoked w audit id args now tx_now (between db) d db') returns
                  (subst
                    (λ d. IsRevoked w audit id args now tx_now (between db) (to_dto row none) d)
                    ends (persist_revoked-ok (between db) row db2 persists))
            | inr (e, refused) ↦ absurd (ground arith)
          ]

    revoked_found :
        HasUniqueIds (between db).delegated_authorities
        → (row : DelegatedAuthorityRow) × (row.id ≡ id)
          × (row.account_uuid ≡ dto.account_uuid)
          × (get_authority_by_id db'.delegated_authorities id
              ≡ some (revoked_row (revoke_patch args now) row))
    unfolding to_dto
    revoked_found unique =
        let (row, active, returned, (latest, newest, same)) = revoke_authority-IsRevoked in
        (
          row,
          ground (
            arith,
            eq_iff row.id id,
            find-admits (is_active_with_id id) (between db).delegated_authorities row active,
          ),
          ground arith,
          ap (λ (d : Db). get_authority_by_id d.delegated_authorities id) same
              ∙ get_authority_by_id-revoke_rows id (revoke_patch args now)
                  (between db).delegated_authorities row unique active,
        )

    -- Where ids are unique, no token validates against a revoked authority: a token that names it
    -- is rejected as revoked, whatever the operation, the amount and the time, and any other as
    -- invalid.
    pub revoke-validate :
        HasUniqueIds (between db).delegated_authorities
        → (verify : String → TokenVerdict) (later : ℕ) (call : ValidateAuthorityArgs)
        → (result : ValidateAuthorityResult) × (validate_authority verify db' later id call
            ≡ ok result)
          × (result.valid ≡ false)
          × (result.rejection_reason
              ≡ some
                  (if names (verify call.token) id then token_revoked else token_invalid_signature))
    unfolding validate_authority validate_row reject
    revoke-validate unique verify later call =
        let (row, same_id, _, found) = revoked_found unique in
        (
          validate_row (verify call.token) db'.authority_usage later
              (revoked_row (revoke_patch args now) row) call,
          rw found,
          ground arith,
          ground arith,
        )

    -- Where ids are unique, whoever may see the authority is told by a second revocation that it
    -- is revoked already, and nothing is written.
    pub revoke-revoke :
        HasUniqueIds (between db).delegated_authorities
        → (between' : Db → Db) (audit' : AuthorityAuditContext) (args' : RevokeAuthorityArgs)
          (now' tx_now' : ℕ)
        → (from_console audit'.caller
            && not (is_account dto.account_uuid audit'.caller_account_uuid))
          ≡ false
        → revoke_authority w between' audit' id args' now' tx_now' db'
          ≡ err (coded "AUTHORITY_ALREADY_REVOKED" 409 none)
    unfolding check_revocable
    revoke-revoke unique between' audit' args' now' tx_now' sees =
        let (row, same_id, account, found) = revoked_found unique in
        revoke_authority-refused w audit' id args' now' tx_now' between' db'
          (coded "AUTHORITY_ALREADY_REVOKED" 409 none)
          (ap (check_revocable audit' now') found ∙ ground arith)

-- A customer of the Console is answered for the authority of another account exactly as for an id
-- that no authority has: with the same error on any database where the id is unknown.
pub revoke_authority-hides :
    (w : World) (between : Db → Db) (audit : AuthorityAuditContext) (id : String)
    (args : RevokeAuthorityArgs) (now tx_now : ℕ) (db unknown : Db) (row : DelegatedAuthorityRow)
    → get_authority_by_id db.delegated_authorities id ≡ some row
    → get_authority_by_id unknown.delegated_authorities id ≡ none
    → from_console audit.caller ≡ true
    → is_account row.account_uuid audit.caller_account_uuid ≡ false
    → revoke_authority w between audit id args now tx_now db
      ≡ revoke_authority w between audit id args now tx_now unknown
unfolding check_revocable
revoke_authority-hides w between audit id args now tx_now db unknown row found gone console other =
    revoke_authority-refused w audit id args now tx_now between db
      (coded "AUTHORITY_NOT_FOUND" 404 none) (ap (check_revocable audit now) found ∙ ground arith)
    ∙ sym (
        revoke_authority-refused w audit id args now tx_now between unknown
          (coded "AUTHORITY_NOT_FOUND" 404 none) (ap (check_revocable audit now) gone))
