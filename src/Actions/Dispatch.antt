-- ===== src/Actions/Dispatch.antt =====
-- `dispatchAction` of src/modules/actions/service.ts.
pub mod Phases
pub mod PhaseA
pub mod PhaseC
pub mod Guard
pub mod Usage
pub mod Outcome
use Prim.Native.String.{◌++◌ as concat}
use helpan_ai.Prelude.{ℕ, ◌+◌, String, not, Option, none, some, ◌==◌, if◌then◌else◌, ◌or_else◌}
use helpan_ai.Time.{period_window_key}
use helpan_ai.World.{World}
use helpan_ai.Store.{Db}
use helpan_ai.Store.Rows.{AuthorityScope, ActionRow, ActionInitiatedBy}
use helpan_ai.Store.Tx.{coded, Result, ok, err}
use helpan_ai.Authorities.Types.{AuthorityDto}
use helpan_ai.Authorities.Validate.{
  ValidateAuthorityArgs, ValidateAuthorityResult, covering_scope, validate_authority,
}
use helpan_ai.Actions.Types.{
  DispatchInput, DispatchOutcome, DispatchDeps, DispatchAuditContext, DispatchActionArgs, Clocks,
  ActionDto, to_action_dto, map_rejection_to_error,
}
use helpan_ai.Actions.Redactor.{redact_payload}
use Phases.{Prepared, phase_a, phase_c}

abbrev decoded : Option String → Result String
decoded none = err (coded "AUTH_AUTHORITY_MALFORMED" 401 none)
decoded (some jti) = ok jti

abbrev pub call_of : DispatchActionArgs → ValidateAuthorityArgs
call_of args = record {
  token = args.delegated_authority_jwt;
  intended_operation = args.target_operation;
  amount_minor = args.amount_minor;
}

abbrev with_scope : AuthorityDto → Option AuthorityScope → Result (AuthorityDto × AuthorityScope)
with_scope authority none = err (coded "ACTION_SCOPE_RESOLUTION" 500 none)
with_scope authority (some scope) = ok (authority, scope)

-- Steps 2 to 4, on the validator's answer.
unfoldable pub accept :
    DispatchActionArgs → ValidateAuthorityResult → Result (AuthorityDto × AuthorityScope)
accept args validation =
    if not validation.valid
    then err (map_rejection_to_error validation.rejection_reason)
    else if not (args.account_uuid == validation.authority.account_uuid)
    then err (coded "ACTION_ACCOUNT_MISMATCH" 403 none)
    else with_scope validation.authority
        (covering_scope validation.authority.scopes args.target_operation)

abbrev after_validation :
    DispatchActionArgs → Result ValidateAuthorityResult → Result (AuthorityDto × AuthorityScope)
after_validation args (err e) = err e
after_validation args (ok validation) = accept args validation

abbrev with_jti :
    DispatchDeps
    → Clocks
    → DispatchActionArgs
    → Db
    → Result String
    → Result (String × AuthorityDto × AuthorityScope)
with_jti deps clocks args db (err e) = err e
with_jti deps clocks args db (ok jti) =
    elim (after_validation args
      (validate_authority deps.verify db clocks.validated_at jti (call_of args))) [
        | err e ↦ err e
        | ok (authority, scope) ↦ ok (jti, authority, scope)
      ]

-- Steps 1 to 4: reads only.
unfoldable pub authorise :
    DispatchDeps
    → Clocks
    → DispatchActionArgs
    → Db
    → Result (String × AuthorityDto × AuthorityScope)
authorise deps clocks args db =
    with_jti deps clocks args db (decoded (deps.decode_jti args.delegated_authority_jwt))

-- Steps 5 and 6. A second ULID is drawn where the caller supplies no business_op_id.
unfoldable pub prepare :
    World
    → DispatchDeps
    → Clocks
    → DispatchAuditContext
    → DispatchActionArgs
    → String
    → AuthorityDto
    → AuthorityScope
    → ℕ
    → Prepared
unfolding redact_payload
prepare w deps clocks audit args jti authority scope minted = record {
  action_id = concat "act_" (w.ulid minted);
  business_op_id = args.business_op_id or_else concat "boi_" (w.ulid (minted + 1));
  traceparent = audit.traceparent or_else deps.new_traceparent;
  initiated_by = args.initiated_by or_else ActionInitiatedBy.agent;
  jti = jti;
  agent_id = authority.agent_id;
  scope_id = scope.scope_id;
  payload_redacted = redact_payload args.payload;
  period_window = period_window_key scope.period clocks.now;
}

abbrev pub input_of : DispatchAuditContext → DispatchActionArgs → Prepared → DispatchInput
input_of audit args p = record {
  target_rail = args.target_rail;
  target_operation = args.target_operation;
  payload = args.payload;
  delegated_authority_jwt = args.delegated_authority_jwt;
  business_op_id = p.business_op_id;
  traceparent = p.traceparent;
  idempotency_key = audit.idempotency_key;
  account_uuid = args.account_uuid;
}

abbrev returned : Option ActionRow → Result ActionDto
returned none = err (coded "ACTION_LOST" 500 none)
returned (some row) = ok (to_action_dto row)

-- Phase B has returned; the terminal status is its own transaction.
unfoldable pub settle :
    World
    → Clocks
    → DispatchAuditContext
    → DispatchActionArgs
    → Prepared
    → DispatchOutcome
    → Db
    → Result ActionDto × Db
unfolding to_action_dto
settle w clocks audit args p outcome db = elim (phase_c w clocks audit args p outcome db) [
  | err e ↦ (err e, db)
  | ok (final, db') ↦ (returned final, db')
]

-- The database is that of the last transaction that committed. `between` is what other
-- transactions do while the call to the target rail is under way.
unfoldable pub run_prepared :
    World
    → DispatchDeps
    → Clocks
    → (Db → Db)
    → DispatchAuditContext
    → DispatchActionArgs
    → Prepared
    → Db
    → Result ActionDto × Db
unfolding settle
run_prepared w deps clocks between audit args p db = elim (phase_a w clocks audit args p db) [
  | err e ↦ (err e, db)
  | ok (_, db_a) ↦
      settle w clocks audit args p (deps.dispatch (input_of audit args p)) (between db_a)
]

abbrev draws : Option String → ℕ
draws none = 2
draws (some id) = 1

-- `meanwhile` is what other transactions do between the validator's reads and phase A.
unfoldable pub dispatch_action :
    World
    → DispatchDeps
    → Clocks
    → (Db → Db)
    → (Db → Db)
    → DispatchAuditContext
    → DispatchActionArgs
    → Db
    → Result ActionDto × Db
unfolding authorise prepare run_prepared
dispatch_action w deps clocks meanwhile between audit args db =
    elim (authorise deps clocks args db) [
      | err e ↦ (err e, db)
      | ok (jti, authority, scope) ↦
          run_prepared w deps clocks between audit args
            (prepare w deps clocks audit args jti authority scope db.minted)
            (meanwhile (record db { minted = db.minted + draws args.business_op_id }))
    ]
