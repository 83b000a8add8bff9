-- ===== src/Tests/Grants.antt =====
-- An authority that is issued and validated, at concrete inputs.
use helpan_ai.Prelude.{String, true, none, some, [], ◌∷◌, ◌≡◌, ◌↔◌, refl, arith, All}
use helpan_ai.Json.Stringify.{decimal}
use helpan_ai.Store.{Db, empty_db}
use helpan_ai.Store.Tx.{Result, ok, err}
use helpan_ai.Store.Rows.{AuthorityStatus, DelegatedAuthorityRow}
use helpan_ai.Scopes.{classify_scope, tightest_ttl_seconds, requires_step_up, get_scope_by_id}
use helpan_ai.Audit.{append_audit_entry}
use helpan_ai.Outbox.Enqueue.{enqueue_outbox_entry}
use helpan_ai.Authorities.Types.{AuthorityDto, to_dto}
use helpan_ai.Authorities.Repo.{
  get_agent_by_id, get_period_usage_minor, insert_authority, authority_row,
}
use helpan_ai.Authorities.Claims.{build_delegated_authority_claims}
use helpan_ai.Authorities.Conditions.{check_classified, class_by_id, check_step_up, agent_ok}
use helpan_ai.Authorities.Issue.{scope_tables, issue_authority, sign_and_persist, persist_issued}
use helpan_ai.Authorities.Issue.Checks.{issue_authority-IsAllowed, IsAllowed}
use helpan_ai.Authorities.Validate.{
  TokenVerdict, verified, ValidateAuthorityArgs, ValidateAuthorityResult, covering_scope,
  validate_row, validate_authority,
}
use helpan_ai.Authorities.Validate.Laws.{Permits, WithinLimits, validate_row-Permits}
use helpan_ai.Authorities.Lifecycle.{issue-validate}
use helpan_ai.Tests.Fixtures.{
  plain_world, start_db, issuance, console, undisturbed, grant, granted_at, transfer,
}

abbrev blank_dto : AuthorityDto
blank_dto = record {
  id = "";
  account_uuid = "";
  agent_id = "";
  scopes = [];
  status = AuthorityStatus.active;
  expires_at = "";
  revoked_at = none;
  revocation_reason = none;
  created_at = "";
  token = none;
}

abbrev pub value_or : Result (AuthorityDto × Db) → AuthorityDto × Db
value_or (ok r) = r
value_or (err e) = (blank_dto, empty_db)

abbrev pub issued : AuthorityDto × Db
issued =
    value_or (
      issue_authority plain_world issuance console grant undisturbed granted_at granted_at start_db)

pub issue_returns :
    issue_authority plain_world issuance console grant undisturbed granted_at granted_at start_db
    ≡ ok (issued.0, issued.1)
unfolding issue_authority get_agent_by_id get_scope_by_id check_classified tightest_ttl_seconds
    classify_scope class_by_id check_step_up requires_step_up sign_and_persist persist_issued
    insert_authority append_audit_entry enqueue_outbox_entry
issue_returns = refl

issued_id : issued.0.id ≡ "daa_0"
unfolding issue_authority get_agent_by_id get_scope_by_id check_classified tightest_ttl_seconds
    classify_scope class_by_id check_step_up requires_step_up sign_and_persist persist_issued
    insert_authority append_audit_entry enqueue_outbox_entry to_dto authority_row
    build_delegated_authority_claims decimal
issued_id = refl

issue_authority-IsAllowed_example :
    (agent_ok (get_agent_by_id start_db.agents "agt_planner") ≡ true)
    × All (IsAllowed issuance grant (scope_tables undisturbed start_db) 1) (transfer ∷ [])
issue_authority-IsAllowed_example =
    issue_authority-IsAllowed plain_world issuance console grant undisturbed granted_at granted_at
      start_db issued.0 issued.1 issue_returns

-- A verifier that takes a jti for a token of it.
abbrev pub by_jti : String → TokenVerdict
by_jti token = verified (some token)

abbrev pub transfer_300 : ValidateAuthorityArgs
transfer_300 = record {
  token = issued.0.id;
  intended_operation = "pay.transfer";
  amount_minor = some 300;
}

covers_transfer : covering_scope (transfer ∷ []) "pay.transfer" ≡ some transfer
unfolding covering_scope
covers_transfer = refl

within_limits :
    WithinLimits
      (by_jti issued.0.id)
      issued.1.authority_usage
      1_000_500_000
      issued.0.id
      transfer
      (some 300)
unfolding issue_authority get_agent_by_id get_scope_by_id check_classified tightest_ttl_seconds
    classify_scope class_by_id check_step_up requires_step_up sign_and_persist persist_issued
    insert_authority append_audit_entry enqueue_outbox_entry get_period_usage_minor
within_limits = (omega arith, omega arith)

issue-validate_example :
    (result : ValidateAuthorityResult) × (validate_authority by_jti issued.1 1_000_500_000
        issued.0.id transfer_300
      ≡ ok result)
    × (result.valid ≡ true)
issue-validate_example =
    issue-validate plain_world issuance console grant undisturbed granted_at granted_at start_db
      issued.0 issued.1 issue_returns by_jti 1_000_500_000 transfer_300 transfer refl (omega arith)
      covers_transfer within_limits

abbrev pub granted_row : DelegatedAuthorityRow
granted_row = record {
  id = "daa_0";
  account_uuid = "acc_1";
  agent_id = "agt_planner";
  scopes = transfer ∷ [];
  status = AuthorityStatus.active;
  step_up_jti = none;
  issued_by_app_id = "helpan_console";
  issued_at = granted_at;
  expires_at = 1_000_600_000;
  revoked_at = none;
  revocation_reason = none;
  revocation_detail = none;
}

validate_row-Permits_example :
    ((validate_row (by_jti "daa_0") [] 1_000_500_000 granted_row transfer_300).valid ≡ true)
    ↔ Permits (by_jti "daa_0") [] 1_000_500_000 granted_row transfer_300
validate_row-Permits_example =
    validate_row-Permits (by_jti "daa_0") [] 1_000_500_000 granted_row transfer_300

abbrev pub alone : Db → Db
alone db = db

abbrev pub granted_db : Db
granted_db = record start_db { delegated_authorities = granted_row ∷ [] }
