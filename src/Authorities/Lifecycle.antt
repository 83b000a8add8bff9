-- ===== src/Authorities/Lifecycle.antt =====
-- Issuance, validation and revocation together.
use helpan_ai.Prelude.{
  ℕ, length, ◌+◌, ◌*◌, ◌/◌, ◌<◌, String, true, some, [], ◌∷◌, ◌++◌, ◌≡◌, sym, ap, ◌∙◌, arith, ◌==◌,
  eq_iff, find-append_fresh,
}
use mathlib.Core.Path.{subst}
use helpan_ai.World.{World}
use helpan_ai.Store.{Db}
use helpan_ai.Store.Rows.{AuthorityScope, AuthorityStatus, DelegatedAuthorityRow}
use helpan_ai.Store.Tx.{ok}
use helpan_ai.Authorities.Types.{AuthorityAuditContext, AuthorityDto, to_dto}
use helpan_ai.Authorities.Repo.{get_authority_by_id, authority_row}
use helpan_ai.Authorities.Claims.{build_delegated_authority_claims}
use helpan_ai.Authorities.Conditions.{IssueAuthorityArgs}
use helpan_ai.Authorities.Issue.{IssuanceDeps, moment, issue_authority}
use helpan_ai.Authorities.Issue.Persist.{built_claims, issue_authority-IsIssued}
use helpan_ai.Authorities.Validate.{
  TokenVerdict, verified, ValidateAuthorityArgs, ValidateAuthorityResult, covering_scope,
  validate_authority, validate_row,
}
use helpan_ai.Authorities.Validate.Laws.{WithinLimits, validate_row-Permits}

-- What later reads see of an authority that was issued.
abbrev IsStored : IssueAuthorityArgs → ℕ → AuthorityDto → Db → DelegatedAuthorityRow → Type 0
IsStored args now dto db' row =
    (get_authority_by_id db'.delegated_authorities dto.id ≡ some row)
    × (row.id ≡ dto.id)
    × (row.account_uuid ≡ args.account_uuid)
    × (row.scopes ≡ args.scopes)
    × (row.status ≡ AuthorityStatus.active)
    × (row.expires_at ≡ (now / 1000 + args.ttl_seconds) * 1000)

module _ (w : World) (deps : IssuanceDeps) (audit : AuthorityAuditContext)
    (args : IssueAuthorityArgs) (between : ℕ → Db → Db) (now tx_now : ℕ) (db : Db)
    (dto : AuthorityDto) (db' : Db)
    (issued : issue_authority w deps audit args between now tx_now db ≡ ok (dto, db')) where
  issue_authority-IsStored : (row : DelegatedAuthorityRow) × IsStored args now dto db' row
  unfolding authority_row to_dto build_delegated_authority_claims get_authority_by_id
  issue_authority-IsStored =
      let (_, rails, jti, _, _, (sign, token, row, _, _, returned, persisted)) =
        issue_authority-IsIssued w deps audit args between now tx_now db dto db' issued in
      let (made, free, (latest, newest, same)) = persisted in
      let signing = moment between (length args.scopes) db in
      let found = between (length args.scopes) (record signing { minted = signing.minted + 1 }) in
      let key : row.id ≡ (built_claims w deps args now signing rails jti).jti =
        ap (λ (r : DelegatedAuthorityRow). r.id) made in
      let row_id : row.id ≡ dto.id = sym (ap (λ (d : AuthorityDto). d.id) returned) in
      let rows : db'.delegated_authorities ≡ found.delegated_authorities ++ row ∷ [] =
        ap (λ (d : Db). d.delegated_authorities) same in
      let here : (row.id == (built_claims w deps args now signing rails jti).jti) ≡ true =
        (eq_iff _ _).1 key in
      (
        row,
        (
          ap (λ l. get_authority_by_id l dto.id) rows
              ∙ ap (get_authority_by_id (found.delegated_authorities ++ row ∷ []))
                  (sym row_id ∙ key)
              ∙ find-append_fresh
                  (λ (r : DelegatedAuthorityRow).
                    r.id == (built_claims w deps args now signing rails jti).jti)
                  found.delegated_authorities row free here,
          row_id,
          ap (λ (r : DelegatedAuthorityRow). r.account_uuid) made,
          ap (λ (r : DelegatedAuthorityRow). r.scopes) made,
          ap (λ (r : DelegatedAuthorityRow). r.status) made,
          ap (λ (r : DelegatedAuthorityRow). r.expires_at) made,
        ),
      )

  -- An authority that was just issued is valid for each of its scopes: with a token that verifies
  -- and names it, before `ttl_seconds` from the second of its issue, within its limits.
  pub issue-validate :
      (verify : String → TokenVerdict) (later : ℕ) (call : ValidateAuthorityArgs)
      (scope : AuthorityScope)
      → verify call.token ≡ verified (some dto.id)
      → later < (now / 1000 + args.ttl_seconds) * 1000
      → covering_scope args.scopes call.intended_operation ≡ some scope
      → WithinLimits (verify call.token) db'.authority_usage later dto.id scope call.amount_minor
      → (result : ValidateAuthorityResult) × (validate_authority verify db' later dto.id call
          ≡ ok result)
        × (result.valid ≡ true)
  unfolding validate_authority
  issue-validate verify later call scope names before covers within =
      let (row, (found, row_id, _, scopes, active, expires)) = issue_authority-IsStored in
      (
        validate_row (verify call.token) db'.authority_usage later row call,
        rw found,
        (validate_row-Permits (verify call.token) db'.authority_usage later row call).1 (
          names ∙ ap (λ i. verified (some i)) (sym row_id),
          active,
          omega arith,
          scope,
          ap (λ l. covering_scope l call.intended_operation) scopes ∙ covers,
          subst
              (λ i.
                WithinLimits (verify call.token) db'.authority_usage later i scope
                  call.amount_minor)
              (sym row_id) within,
        ),
      )
