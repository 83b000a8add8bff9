-- ===== src/Actions/Types.antt =====
-- The arguments, results and errors of src/modules/actions/service.ts, and the dispatcher
-- interface of src/lib/dispatchers/dispatcher.ts.
use helpan_ai.Prelude.{ℕ, String, Option, none, some}
use helpan_ai.Json.{Json}
use helpan_ai.Time.{to_iso_string}
use helpan_ai.Store.Rows.{ActionRow, ActionStatus, ActionInitiatedBy}
use helpan_ai.Store.Tx.{RailError, coded}
use helpan_ai.Authorities.Types.{
  iso_or_none, RejectionReason, token_invalid_signature, token_expired, token_revoked,
  scope_not_covered, amount_exceeds_limit, period_limit_exhausted, account_suspended,
}
use helpan_ai.Authorities.Validate.{TokenVerdict}

pub record DispatchInput : Type 0 where
  pub target_rail : String
  pub target_operation : String
  pub payload : Json
  pub delegated_authority_jwt : String
  pub business_op_id : String
  pub traceparent : String
  pub idempotency_key : String
  pub account_uuid : String

-- `rejected` is a promise that rejects: the dispatcher threw.
pub data DispatchOutcome : Type 0 where
  completed : Json → ℕ → DispatchOutcome
  failed : String → Option Json → ℕ → DispatchOutcome
  rejected : DispatchOutcome

-- What is injected: the unverified read of a token's `jti` (jose's `decodeJwt`), its verification
-- (`jwtVerify`), the dispatchers, and the traceparent that is generated for a caller without one.
pub record DispatchDeps : Type 0 where
  pub decode_jti : String → Option String
  pub verify : String → TokenVerdict
  pub dispatch : DispatchInput → DispatchOutcome
  pub new_traceparent : String

pub record DispatchAuditContext : Type 0 where
  pub app_id : String
  pub request_id : String
  pub idempotency_key : String
  pub traceparent : Option String

pub record DispatchActionArgs : Type 0 where
  pub account_uuid : String
  pub target_rail : String
  pub target_operation : String
  pub payload : Json
  pub initiated_by : Option ActionInitiatedBy
  pub amount_minor : Option ℕ
  pub business_op_id : Option String
  pub delegated_authority_jwt : String

-- The five readings of a clock that a dispatch makes: JavaScript's, and NOW() of both transactions.
pub record Clocks : Type 0 where
  pub validated_at : ℕ
  pub now : ℕ
  pub tx_a : ℕ
  pub completed_at : ℕ
  pub tx_c : ℕ

pub record ActionDto : Type 0 where
  pub id : String
  pub account_uuid : String
  pub agent_id : String
  pub delegated_authority_jti : Option String
  pub target_rail : String
  pub target_operation : String
  pub status : ActionStatus
  pub initiated_by : ActionInitiatedBy
  pub request_payload : Json
  pub result : Option Json
  pub error_code : Option String
  pub traceparent : Option String
  pub business_op_id : Option String
  pub created_at : String
  pub completed_at : Option String

unfoldable pub to_action_dto : ActionRow → ActionDto
to_action_dto row = record {
  id = row.id;
  account_uuid = row.account_uuid;
  agent_id = row.agent_id;
  delegated_authority_jti = row.delegated_authority_jti;
  target_rail = row.target_rail;
  target_operation = row.target_operation;
  status = row.status;
  initiated_by = row.initiated_by;
  request_payload = row.request_payload_redacted;
  result = row.result_redacted;
  error_code = row.error_code;
  traceparent = row.traceparent;
  business_op_id = row.business_op_id;
  created_at = to_iso_string row.created_at;
  completed_at = iso_or_none row.completed_at;
}

unfoldable pub map_rejection_to_error : Option RejectionReason → RailError
map_rejection_to_error none = coded "AUTH_AUTHORITY_INVALID" 401 none
map_rejection_to_error (some token_invalid_signature) = coded "AUTH_AUTHORITY_INVALID" 401 none
map_rejection_to_error (some token_revoked) = coded "AUTH_AUTHORITY_REVOKED" 401 none
map_rejection_to_error (some token_expired) = coded "AUTH_AUTHORITY_EXPIRED" 401 none
map_rejection_to_error (some scope_not_covered) = coded "AUTH_SCOPE_NOT_COVERED" 403 none
map_rejection_to_error (some amount_exceeds_limit) = coded "AUTHORITY_LIMIT_EXCEEDED" 422 none
map_rejection_to_error (some period_limit_exhausted) = coded "AUTHORITY_PERIOD_EXHAUSTED" 422 none
map_rejection_to_error (some account_suspended) = coded "AUTH_AUTHORITY_INVALID" 401 none

abbrev pub initiated_by_text : ActionInitiatedBy → String
initiated_by_text ActionInitiatedBy.human = "human"
initiated_by_text ActionInitiatedBy.agent = "agent"
initiated_by_text ActionInitiatedBy.system = "system"
