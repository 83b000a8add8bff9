-- ===== src/Authorities/Types.antt =====
-- The arguments, results and texts of src/modules/authorities/service.ts and schemas.ts.
use helpan_ai.Prelude.{ℕ, String, Bool, Option, none, some, List}
use helpan_ai.Time.{to_iso_string}
use helpan_ai.Store.Rows.{AuthorityScope, AuthorityStatus, RevocationReason, DelegatedAuthorityRow}

pub data Caller : Type 0 where
  service customer : Caller

pub record AuthorityAuditContext : Type 0 where
  pub app_id : String
  pub request_id : String
  pub traceparent : Option String
  pub caller : Caller
  pub caller_account_uuid : Option String

pub record AuthorityDto : Type 0 where
  pub id : String
  pub account_uuid : String
  pub agent_id : String
  pub scopes : List AuthorityScope
  pub status : AuthorityStatus
  pub expires_at : String
  pub revoked_at : Option String
  pub revocation_reason : Option RevocationReason
  pub created_at : String
  pub token : Option String

abbrev pub iso_or_none : Option ℕ → Option String
iso_or_none none = none
iso_or_none (some t) = some (to_iso_string t)

unfoldable pub to_dto : DelegatedAuthorityRow → Option String → AuthorityDto
to_dto row token = record {
  id = row.id;
  account_uuid = row.account_uuid;
  agent_id = row.agent_id;
  scopes = row.scopes;
  status = row.status;
  expires_at = to_iso_string row.expires_at;
  revoked_at = iso_or_none row.revoked_at;
  revocation_reason = row.revocation_reason;
  created_at = to_iso_string row.issued_at;
  token = token;
}

pub data RejectionReason : Type 0 where
  token_invalid_signature token_expired token_revoked scope_not_covered : RejectionReason
  amount_exceeds_limit period_limit_exhausted account_suspended : RejectionReason

abbrev pub reason_text : RevocationReason → String
reason_text RevocationReason.user_initiated = "user_initiated"
reason_text RevocationReason.operator_initiated = "operator_initiated"
reason_text RevocationReason.account_suspended = "account_suspended"
reason_text RevocationReason.kyc_downgraded = "kyc_downgraded"
reason_text RevocationReason.cascade_user_deleted = "cascade_user_deleted"
reason_text RevocationReason.cascade_consent_revoked = "cascade_consent_revoked"
reason_text RevocationReason.security_incident = "security_incident"
reason_text RevocationReason.other = "other"

-- The audit columns that depend on who calls: the Console's customer, or a service.
abbrev pub from_console : Caller → Bool
from_console Caller.customer = Bool.true
from_console Caller.service = Bool.false
