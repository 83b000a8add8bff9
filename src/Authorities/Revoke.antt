-- ===== src/Authorities/Revoke.antt =====
-- `revokeAuthority` of src/modules/authorities/service.ts.
pub mod Laws
use Prim.Native.String.{◌++◌ as concat}
use helpan_ai.Prelude.{
  ℕ, String, Bool, false, not, ◌&&◌, ◌||◌, Option, none, some, ◌==◌, leb, if◌then◌else◌, ◌or_else◌,
}
use helpan_ai.Json.{obj, str, end, field, with_text}
use helpan_ai.Time.{to_iso_string}
use helpan_ai.World.{World}
use helpan_ai.Store.{Db}
use helpan_ai.Store.Rows.{
  RevocationReason, DelegatedAuthorityRow, authority_is_revoked, authority_is_expired,
}
use helpan_ai.Store.Tx.{coded, Result, ok, err, Tx, ◌>>=◌, ◌>>◌, pure, lift}
use helpan_ai.Audit.{append_audit_entry}
use helpan_ai.Audit.Hash.{AuditEntry, blank_entry}
use helpan_ai.Outbox.Enqueue.{EnqueueOutboxInput, enqueue_outbox_entry}
use helpan_ai.Authorities.Types.{
  AuthorityAuditContext, AuthorityDto, to_dto, from_console, reason_text,
}
use helpan_ai.Authorities.Repo.{get_authority_by_id, revoke_active_authority}
use helpan_ai.Authorities.Claims.{truthy_text}

pub record RevokeAuthorityArgs : Type 0 where
  pub reason : RevocationReason
  pub detail : Option String

abbrev pub initiated_by_for_reason : RevocationReason → String
initiated_by_for_reason RevocationReason.user_initiated = "human"
initiated_by_for_reason RevocationReason.operator_initiated = "human"
initiated_by_for_reason _ = "system"

-- `existing.accountUuid !== audit.callerAccountUuid`, where the second may be undefined.
abbrev pub is_account : String → Option String → Bool
is_account account none = false
is_account account (some caller) = account == caller

-- The checks before the transaction, on the row that was read.
unfoldable pub check_revocable :
    AuthorityAuditContext → ℕ → Option DelegatedAuthorityRow → Result DelegatedAuthorityRow
check_revocable audit now none = err (coded "AUTHORITY_NOT_FOUND" 404 none)
check_revocable audit now (some existing) =
    if from_console audit.caller && not (is_account existing.account_uuid audit.caller_account_uuid)
    then err (coded "AUTHORITY_NOT_FOUND" 404 none)
    else if authority_is_revoked existing.status
    then err (coded "AUTHORITY_ALREADY_REVOKED" 409 none)
    else if authority_is_expired existing.status || leb existing.expires_at now
    then err (coded "AUTHORITY_EXPIRED" 409 none)
    else ok existing

unfoldable pub revoke_entry :
    AuthorityAuditContext → RevokeAuthorityArgs → String → DelegatedAuthorityRow → AuditEntry
revoke_entry audit args id revoked = record blank_entry {
  actor_type = if from_console audit.caller then "user" else "system";
  actor_id =
      if from_console audit.caller
      then audit.caller_account_uuid or_else revoked.account_uuid
      else concat "app:" audit.app_id;
  account_uuid = some revoked.account_uuid;
  action = if from_console audit.caller then "helpan_console.revoke" else "authority.revoke";
  resource_type = some "delegated_authority";
  resource_id = some id;
  agent_id = some revoked.agent_id;
  delegated_authority_jti = some id;
  app_id = some audit.app_id;
  request_id = audit.request_id;
  traceparent = truthy_text audit.traceparent;
  outcome = "success";
  initiated_by = some (initiated_by_for_reason args.reason);
  detail =
      some
        (obj (field "reason" (str (reason_text args.reason)) (with_text "detail" args.detail end)));
}

-- AUTHORITY_REVOKED, as the service and the cascade enqueue it.
unfoldable pub revoked_event :
    RevocationReason → Option String → ℕ → DelegatedAuthorityRow → EnqueueOutboxInput
revoked_event reason traceparent now revoked = record {
  topic = "helpan.authority.events";
  partition_key = revoked.account_uuid;
  payload = obj (
      field "event_id" (str revoked.id) (
        field "event_type" (str "AUTHORITY_REVOKED") (
          field "schema_version" (str "1.0") (
            field "occurred_at" (str (to_iso_string now)) (
              field "authority_id" (str revoked.id) (
                field "account_uuid" (str revoked.account_uuid) (
                  field "agent_id" (str revoked.agent_id) (
                    field "reason" (str (reason_text reason)) (
                      field "revoked_at" (str (to_iso_string now))
                        (with_text "traceparent" (truthy_text traceparent) end))))))))));
  headers = none;
}

-- `none` is a race that was lost to another revocation.
abbrev pub found_active : Option DelegatedAuthorityRow → Result DelegatedAuthorityRow
found_active none = err (coded "AUTHORITY_ALREADY_REVOKED" 409 none)
found_active (some revoked) = ok revoked

unfoldable pub persist_revoked :
    World
    → AuthorityAuditContext
    → String
    → RevokeAuthorityArgs
    → ℕ
    → ℕ
    → Tx Db DelegatedAuthorityRow
persist_revoked w audit id args now tx_now = do
  found ←
      revoke_active_authority id
        (record { reason = args.reason; detail = args.detail; revoked_at = now })
  revoked ← lift (found_active found)
  append_audit_entry w tx_now (revoke_entry audit args id revoked)
  enqueue_outbox_entry w tx_now (revoked_event args.reason audit.traceparent now revoked)
  pure revoked

-- The read stands outside the transaction; `between` is what other transactions do in that time.
unfoldable pub revoke_authority :
    World
    → (Db → Db)
    → AuthorityAuditContext
    → String
    → RevokeAuthorityArgs
    → ℕ
    → ℕ
    → Tx Db AuthorityDto
revoke_authority w between audit id args now tx_now db =
    elim (check_revocable audit now (get_authority_by_id db.delegated_authorities id)) [
      | err e ↦ err e
      | ok _ ↦
          (persist_revoked w audit id args now tx_now >>= (λ row. pure (to_dto row none)))
            (between db)
    ]
