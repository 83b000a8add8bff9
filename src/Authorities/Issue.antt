-- ===== src/Authorities/Issue.antt =====
-- `issueAuthority` of src/modules/authorities/service.ts.
pub mod Checks
pub mod Persist
use Prim.Native.String.{◌++◌ as concat}
use helpan_ai.Prelude.{
  ℕ, zero, suc, ◌+◌, length, String, Option, none, some, List, [], ◌∷◌, map, ◌==◌, if◌then◌else◌,
  ◌or_else◌,
}
use helpan_ai.Json.{str, arr, obj, end, field, nat, string_list, text_or_null, with_text}
use helpan_ai.Time.{to_iso_string}
use helpan_ai.World.{World}
use helpan_ai.Store.{Db}
use helpan_ai.Store.Rows.{OauthScopeRow, AuthorityScope, DelegatedAuthorityRow}
use helpan_ai.Store.Tx.{coded, Result, ok, err, Tx, ◌>>=◌, ◌>>◌, pure, lift, gets, modify, require}
use helpan_ai.Audit.{append_audit_entry}
use helpan_ai.Audit.Hash.{AuditEntry, blank_entry}
use helpan_ai.Outbox.Enqueue.{EnqueueOutboxInput, enqueue_outbox_entry}
use helpan_ai.Authorities.Types.{AuthorityAuditContext, AuthorityDto, to_dto, from_console}
use helpan_ai.Authorities.Repo.{get_agent_by_id, insert_authority}
use helpan_ai.Authorities.Claims.{
  DelegatedAuthorityClaims, BuildClaimsInput, BuiltClaims, truthy_text,
  build_delegated_authority_claims,
}
use helpan_ai.Authorities.Conditions.{
  StepUpVerifyResult, IssueAuthorityArgs, agent_ok, resolve_scopes, check_classified,
}

pub data SignResult : Type 0 where
  signed : String → SignResult
  sign_failed : String → ℕ → SignResult

-- The dependencies that are injected: Identiti's signer, if configured, and the step-up verifier,
-- whose `step_up_ok` carries jti and sub.
pub record IssuanceDeps : Type 0 where
  pub signer : Option (DelegatedAuthorityClaims → SignResult)
  pub verify_step_up : String → StepUpVerifyResult
  pub issuer : String
  pub helpan_audience : String

unfoldable pub map_signer_error_code : String → String
map_signer_error_code code =
    if code == "step_up_token_already_used"
    then "STEP_UP_TOKEN_ALREADY_USED"
    else if code == "step_up_token_unknown"
    then "STEP_UP_TOKEN_INVALID"
    else if code == "step_up_token_subject_mismatch"
    then "STEP_UP_TOKEN_INVALID"
    else if code == "expiry_out_of_bounds"
    then "TTL_EXCEEDS_MAX"
    else if code == "customer_not_found"
    then "ACCOUNT_NOT_FOUND"
    else "ISSUANCE_SIGNING_FAILED"

abbrev sign_result : SignResult → Result String
sign_result (signed token) = ok token
sign_result (sign_failed code status) = err (coded (map_signer_error_code code) status none)

unfoldable pub issue_entry :
    AuthorityAuditContext → IssueAuthorityArgs → String → Option String → AuditEntry
issue_entry audit args jti step_up_jti = record blank_entry {
  actor_type = if from_console audit.caller then "user" else "system";
  actor_id =
      if from_console audit.caller
      then audit.caller_account_uuid or_else args.account_uuid
      else concat "app:" audit.app_id;
  account_uuid = some args.account_uuid;
  action = if from_console audit.caller then "helpan_console.grant" else "authority.issue";
  resource_type = some "delegated_authority";
  resource_id = some jti;
  agent_id = some args.agent_id;
  delegated_authority_jti = some jti;
  app_id = some audit.app_id;
  request_id = audit.request_id;
  traceparent = truthy_text audit.traceparent;
  outcome = "success";
  initiated_by = some "human";
  detail = some (
      obj (
        field "scope_ids" (arr (string_list (map (λ (s : AuthorityScope). s.scope_id) args.scopes)))
          (field "ttl_seconds" (nat args.ttl_seconds)
            (field "step_up_jti" (text_or_null step_up_jti) end))));
}

unfoldable pub issued_event : AuthorityAuditContext → ℕ → DelegatedAuthorityRow → EnqueueOutboxInput
issued_event audit now row = record {
  topic = "helpan.authority.events";
  partition_key = row.account_uuid;
  payload = obj (
      field "event_id" (str row.id) (
        field "event_type" (str "AUTHORITY_ISSUED") (
          field "schema_version" (str "1.0") (
            field "occurred_at" (str (to_iso_string now)) (
              field "authority_id" (str row.id) (
                field "account_uuid" (str row.account_uuid) (
                  field "agent_id" (str row.agent_id) (
                    field "expires_at" (str (to_iso_string row.expires_at))
                      (with_text "traceparent" (truthy_text audit.traceparent) end)))))))));
  headers = none;
}

-- Step 9: the row, its audit entry and its event, in one transaction that begins at `tx_now`.
unfoldable pub persist_issued :
    World
    → AuthorityAuditContext
    → IssueAuthorityArgs
    → ℕ
    → ℕ
    → BuiltClaims
    → Option String
    → Tx Db DelegatedAuthorityRow
unfolding issue_entry issued_event
persist_issued w audit args now tx_now built step_up_jti = do
  inserted ← insert_authority tx_now (record {
    id = built.jti;
    account_uuid = args.account_uuid;
    agent_id = args.agent_id;
    scopes = args.scopes;
    step_up_jti = step_up_jti;
    issued_by_app_id = audit.app_id;
    expires_at = built.expires_at;
  })
  append_audit_entry w tx_now (issue_entry audit args built.jti step_up_jti)
  enqueue_outbox_entry w tx_now (issued_event audit now inserted)
  pure inserted

mint : World → Tx Db String
mint w db = ok (w.ulid db.minted, record db { minted = db.minted + 1 })

abbrev pub claims_input :
    IssuanceDeps → IssueAuthorityArgs → List (String × String) → Option String → BuildClaimsInput
claims_input deps args rails jti = record {
  issuer = deps.issuer;
  helpan_audience = deps.helpan_audience;
  account_uuid = args.account_uuid;
  agent_id = args.agent_id;
  ttl_seconds = args.ttl_seconds;
  scopes = args.scopes;
  scope_rails = rails;
  step_up_jti = jti;
}

abbrev pub signer_of :
    Option (DelegatedAuthorityClaims → SignResult) → Result (DelegatedAuthorityClaims → SignResult)
signer_of none = err (coded "ISSUANCE_UNAVAILABLE" 503 none)
signer_of (some sign) = ok sign

-- Steps 7 to 9: the claim set, the signature, the transaction. `meanwhile` is what other
-- transactions do before it begins.
unfoldable pub sign_and_persist :
    World
    → IssuanceDeps
    → (DelegatedAuthorityClaims → SignResult)
    → AuthorityAuditContext
    → IssueAuthorityArgs
    → (Db → Db)
    → ℕ
    → ℕ
    → List (String × String)
    → Option String
    → Tx Db AuthorityDto
unfolding mint
sign_and_persist w deps sign audit args meanwhile now tx_now rails jti = do
  ulid ← mint w
  let built = build_delegated_authority_claims ulid now (claims_input deps args rails jti)
  token ← lift (sign_result (sign built.claims))
  modify meanwhile
  row ← persist_issued w audit args now tx_now built jti
  pure (to_dto row (some token))

-- The database as the n-th read finds it: `between n` is what other transactions do from then to
-- the next read, or to the transaction.
abbrev pub moment : (ℕ → Db → Db) → ℕ → Db → Db
moment between zero db = db
moment between (suc n) db = between n (moment between n db)

-- The agent is the read before those of the scopes.
abbrev pub scope_tables : (ℕ → Db → Db) → Db → ℕ → List OauthScopeRow
scope_tables between db n = (moment between (suc n) db).oauth_scopes

unfoldable pub issue_authority :
    World
    → IssuanceDeps
    → AuthorityAuditContext
    → IssueAuthorityArgs
    → (ℕ → Db → Db)
    → ℕ
    → ℕ
    → Tx Db AuthorityDto
unfolding resolve_scopes
issue_authority w deps audit args between now tx_now = do
  sign ← lift (signer_of deps.signer)
  agent ← gets (λ db. get_agent_by_id db.agents args.agent_id)
  require (agent_ok agent) (coded "AGENT_INVALID" 400 (some "agent_id"))
  tables ← gets (scope_tables between)
  resolution ← lift (resolve_scopes tables [] args.scopes)
  jti ← lift (check_classified deps.verify_step_up resolution.0 args)
  modify (moment between (length args.scopes))
  sign_and_persist w deps sign audit args (between (length args.scopes)) now tx_now resolution.1 jti
