-- ===== src/Actions/Dispatch/Guard.antt =====
-- What `dispatchAction` has checked before it writes anything.
use helpan_ai.Prelude.{
  ℕ, String, true, none, some, ◌≡◌, sym, ap, ◌∙◌, ◌⊎◌, inl, inr, arith, eq_iff, Option-cases,
}
use helpan_ai.World.{World}
use helpan_ai.Store.{Db}
use helpan_ai.Store.Rows.{AuthorityScope, DelegatedAuthorityRow}
use helpan_ai.Store.Tx.{RailError, Result-cases, ok, err}
use helpan_ai.Authorities.Types.{AuthorityDto, to_dto}
use helpan_ai.Authorities.Repo.{get_authority_by_id}
use helpan_ai.Authorities.Validate.{
  TokenVerdict, ValidateAuthorityArgs, ValidateAuthorityResult, reject, covering_scope,
  validate_row, validate_authority,
}
use helpan_ai.Authorities.Validate.Laws.{Permits, validate_row-Permits}
use helpan_ai.Actions.Types.{DispatchDeps, DispatchAuditContext, DispatchActionArgs, Clocks}
use helpan_ai.Actions.Dispatch.{call_of, accept, authorise, dispatch_action}

-- The token names a stored authority of the account that permits the call.
abbrev pub IsPermitted :
    DispatchDeps → Clocks → DispatchActionArgs → Db → String → DelegatedAuthorityRow → Type 0
IsPermitted deps clocks args db jti row =
    (deps.decode_jti args.delegated_authority_jwt ≡ some jti)
    × (get_authority_by_id db.delegated_authorities jti ≡ some row)
    × (args.account_uuid ≡ row.account_uuid)
    × Permits (deps.verify args.delegated_authority_jwt) db.authority_usage clocks.validated_at row
        (call_of args)

validate_row-authority :
    (verdict : TokenVerdict) (db : Db) (now : ℕ) (row : DelegatedAuthorityRow)
    (call : ValidateAuthorityArgs)
    → (validate_row verdict db.authority_usage now row call).authority ≡ to_dto row none
unfolding validate_row reject
validate_row-authority verdict db now row call = ground arith

accept-ok :
    (args : DispatchActionArgs) (validation : ValidateAuthorityResult) (authority : AuthorityDto)
    (scope : AuthorityScope)
    → accept args validation ≡ ok (authority, scope)
    → (validation.valid ≡ true)
      × (args.account_uuid ≡ validation.authority.account_uuid)
      × (authority ≡ validation.authority)
      × (covering_scope validation.authority.scopes args.target_operation ≡ some scope)
unfolding accept
accept-ok args validation authority scope h =
    elim (Option-cases (covering_scope validation.authority.scopes args.target_operation)) [
      | inl uncovered ↦ absurd (ground arith)
      | inr (s, covered) ↦ (
        ground arith,
        ground (arith, eq_iff args.account_uuid validation.authority.account_uuid),
        ground arith,
        ground arith,
      )
    ]

module _ (deps : DispatchDeps) (clocks : Clocks) (args : DispatchActionArgs) (db : Db) where
  pub authorise-IsPermitted :
      (jti : String) (authority : AuthorityDto) (scope : AuthorityScope)
      → authorise deps clocks args db ≡ ok (jti, authority, scope)
      → (row : DelegatedAuthorityRow) × IsPermitted deps clocks args db jti row
        × (authority ≡ to_dto row none)
        × (covering_scope row.scopes args.target_operation ≡ some scope)
  unfolding authorise validate_authority to_dto
  authorise-IsPermitted jti authority scope h =
      elim (Option-cases (deps.decode_jti args.delegated_authority_jwt)) [
        | inl malformed ↦ absurd (ground arith)
        | inr (j, decodes) ↦ elim (Option-cases (get_authority_by_id db.delegated_authorities j)) [
          | inl unknown ↦ absurd (ground arith)
          | inr (row, found) ↦
              let verdict = deps.verify args.delegated_authority_jwt in
              let validation =
                validate_row verdict db.authority_usage clocks.validated_at row (call_of args) in
              elim (Result-cases (accept args validation)) [
                | inr (e, refused) ↦ absurd (ground arith)
                | inl ((a, s), accepted) ↦
                    let same : j ≡ jti = ground arith in
                    let dto =
                      validate_row-authority verdict db clocks.validated_at row (call_of args) in
                    let (valid, account, is_dto, covered) =
                      accept-ok args validation a s accepted in
                    (
                      row,
                      (
                        decodes ∙ ap some same,
                        ap (get_authority_by_id db.delegated_authorities) (sym same) ∙ found,
                        account ∙ ap (λ (d : AuthorityDto). d.account_uuid) dto,
                        (validate_row-Permits verdict db.authority_usage clocks.validated_at row
                              (call_of args)).0
                            valid,
                      ),
                      ground (arith, is_dto ∙ dto),
                      sym (
                            ap (λ (d : AuthorityDto). covering_scope d.scopes args.target_operation)
                              dto)
                          ∙ covered
                          ∙ (ground arith),
                    )
              ]
        ]
      ]

  -- A dispatch either ends in an error with the database as it was, or the token it was given
  -- verifies and names a stored authority that belongs to the account and permits the call.
  pub dispatch_action-IsPermitted :
      (w : World) (meanwhile between : Db → Db) (audit : DispatchAuditContext)
      → ((e : RailError) × (dispatch_action w deps clocks meanwhile between audit args db
            ≡ (err e, db)))
        ⊎ ((jti : String) × (row : DelegatedAuthorityRow) × IsPermitted deps clocks args db jti row)
  unfolding dispatch_action
  dispatch_action-IsPermitted w meanwhile between audit =
      elim (Result-cases (authorise deps clocks args db)) [
        | inl ((jti, authority, scope), accepted) ↦
            let (row, permitted, _, _) = authorise-IsPermitted jti authority scope accepted in
            inr (jti, row, permitted)
        | inr (e, refused) ↦ inl (e, ground arith)
      ]
