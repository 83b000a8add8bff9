-- ===== src/Tests/Revocations.antt =====
-- An authority that is revoked, at concrete inputs.
use helpan_ai.Prelude.{false, not, ◌&&◌, none, some, ◌≡◌, refl, if◌then◌else◌}
use helpan_ai.Json.Stringify.{decimal}
use helpan_ai.Store.{Db}
use helpan_ai.Store.Tx.{ok, err, coded}
use helpan_ai.Scopes.{classify_scope, tightest_ttl_seconds, requires_step_up, get_scope_by_id}
use helpan_ai.Audit.{append_audit_entry, insert_row, audit_row}
use helpan_ai.Outbox.Enqueue.{enqueue_outbox_entry}
use helpan_ai.Authorities.Types.{
  AuthorityDto, to_dto, AuthorityAuditContext, token_revoked, token_invalid_signature, from_console,
}
use helpan_ai.Authorities.Repo.{
  get_agent_by_id, get_authority_by_id, insert_authority, authority_row, revoke_active_authority,
}
use helpan_ai.Authorities.Repo.Keys.{HasUniqueIds}
use helpan_ai.Authorities.Claims.{build_delegated_authority_claims}
use helpan_ai.Authorities.Conditions.{check_classified, class_by_id, check_step_up}
use helpan_ai.Authorities.Issue.{issue_authority, sign_and_persist, persist_issued}
use helpan_ai.Authorities.Validate.{ValidateAuthorityResult, names, validate_authority}
use helpan_ai.Authorities.Revoke.{revoke_authority, check_revocable, persist_revoked, is_account}
use helpan_ai.Authorities.Revoke.Laws.{revoke-validate, revoke-revoke, revoke_authority-hides}
use helpan_ai.Tests.Fixtures.{plain_world, start_db, console, by_user}
use helpan_ai.Tests.Grants.{value_or, issued, by_jti, transfer_300, granted_row, alone, granted_db}

abbrev revoked : AuthorityDto × Db
revoked = value_or (
    revoke_authority plain_world alone console issued.0.id by_user 1_000_100_000 1_000_100_000
      issued.1)

revoke_returns :
    revoke_authority plain_world alone console issued.0.id by_user 1_000_100_000 1_000_100_000
      issued.1
    ≡ ok (revoked.0, revoked.1)
unfolding revoke_authority issue_authority get_agent_by_id get_scope_by_id check_classified
    tightest_ttl_seconds classify_scope class_by_id check_step_up requires_step_up sign_and_persist
    persist_issued insert_authority append_audit_entry enqueue_outbox_entry to_dto authority_row
    build_delegated_authority_claims decimal get_authority_by_id check_revocable persist_revoked
    revoke_active_authority insert_row audit_row
revoke_returns = refl

unique_ids : HasUniqueIds issued.1.delegated_authorities
unfolding issue_authority get_agent_by_id get_scope_by_id check_classified tightest_ttl_seconds
    classify_scope class_by_id check_step_up requires_step_up sign_and_persist persist_issued
    insert_authority append_audit_entry enqueue_outbox_entry
unique_ids = (refl, tt)

revoke-validate_example :
    (result : ValidateAuthorityResult) × (validate_authority by_jti revoked.1 1_000_500_000
        issued.0.id transfer_300
      ≡ ok result)
    × (result.valid ≡ false)
    × (result.rejection_reason
        ≡ some (
            if names (by_jti issued.0.id) issued.0.id
            then token_revoked
            else token_invalid_signature))
revoke-validate_example =
    revoke-validate plain_world console issued.0.id by_user 1_000_100_000 1_000_100_000 alone
      issued.1 revoked.0 revoked.1 revoke_returns unique_ids by_jti 1_000_500_000 transfer_300

sees_own :
    (from_console console.caller
      && not (is_account revoked.0.account_uuid console.caller_account_uuid))
    ≡ false
unfolding revoke_authority issue_authority get_agent_by_id get_scope_by_id check_classified
    tightest_ttl_seconds classify_scope class_by_id check_step_up requires_step_up sign_and_persist
    persist_issued insert_authority append_audit_entry enqueue_outbox_entry to_dto authority_row
    build_delegated_authority_claims decimal get_authority_by_id check_revocable persist_revoked
    revoke_active_authority insert_row audit_row
sees_own = refl

revoke-revoke_example :
    revoke_authority plain_world alone console issued.0.id by_user 1_000_200_000 1_000_200_000
      revoked.1
    ≡ err (coded "AUTHORITY_ALREADY_REVOKED" 409 none)
revoke-revoke_example =
    revoke-revoke plain_world console issued.0.id by_user 1_000_100_000 1_000_100_000 alone issued.1
      revoked.0 revoked.1 revoke_returns unique_ids alone console by_user 1_000_200_000
      1_000_200_000 sees_own

abbrev stranger : AuthorityAuditContext
stranger = record console { caller_account_uuid = some "acc_2" }

found_granted : get_authority_by_id granted_db.delegated_authorities "daa_0" ≡ some granted_row
unfolding get_authority_by_id
found_granted = refl

not_found : get_authority_by_id start_db.delegated_authorities "daa_0" ≡ none
unfolding get_authority_by_id
not_found = refl

revoke_authority-hides_example :
    revoke_authority plain_world alone stranger "daa_0" by_user 1_000_100_000 1_000_100_000
      granted_db
    ≡ revoke_authority plain_world alone stranger "daa_0" by_user 1_000_100_000 1_000_100_000
        start_db
revoke_authority-hides_example =
    revoke_authority-hides plain_world alone stranger "daa_0" by_user 1_000_100_000 1_000_100_000
      granted_db start_db granted_row found_granted not_found refl refl
