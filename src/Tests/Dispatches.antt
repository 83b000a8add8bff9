-- ===== src/Tests/Dispatches.antt =====
-- A dispatch at concrete inputs.
use helpan_ai.Prelude.{◌+◌, String, none, some, ◌≡◌, ◌⊎◌, refl}
use helpan_ai.Json.{null, obj, field, end, nat}
use helpan_ai.Time.{period_window_key}
use helpan_ai.Store.{Db}
use helpan_ai.Store.Rows.{DelegatedAuthorityRow, ActionStatus, ActionInitiatedBy}
use helpan_ai.Store.Tx.{RailError, Result, ok, err}
use helpan_ai.Authorities.Types.{to_dto}
use helpan_ai.Authorities.Repo.{get_authority_by_id, get_period_usage_minor}
use helpan_ai.Authorities.Validate.Laws.{AtMost}
use helpan_ai.Actions.Types.{
  DispatchDeps, completed, DispatchAuditContext, DispatchActionArgs, Clocks, ActionDto,
}
use helpan_ai.Actions.Dispatch.{accept, authorise, dispatch_action}
use helpan_ai.Actions.Dispatch.Guard.{IsPermitted, dispatch_action-IsPermitted}
use helpan_ai.Actions.Dispatch.Usage.{dispatch_action-within_limit}
use helpan_ai.Tests.Fixtures.{plain_world, transfer}
use helpan_ai.Tests.Grants.{by_jti, granted_row, granted_db, alone}
use helpan_ai.Authorities.Validate.{covering_scope, validate_row, validate_authority}

abbrev rails : DispatchDeps
rails = record {
  decode_jti = λ token. some token;
  verify = by_jti;
  dispatch = λ input. completed (obj (field "paid" (nat 1) end)) 12;
  new_traceparent = "00-0-0-01";
}

abbrev clocks : Clocks
clocks = record {
  validated_at = 1_000_100_000;
  now = 1_000_100_001;
  tx_a = 1_000_100_002;
  completed_at = 1_000_100_900;
  tx_c = 1_000_100_901;
}

abbrev request : DispatchAuditContext
request = record {
  app_id = "app_planner";
  request_id = "req_2";
  idempotency_key = "idem_1";
  traceparent = none;
}

abbrev pay : DispatchActionArgs
pay = record {
  account_uuid = "acc_1";
  target_rail = "kipkiren_pay";
  target_operation = "pay.transfer";
  payload = obj (field "amount_minor" (nat 300) end);
  initiated_by = none;
  amount_minor = some 300;
  business_op_id = none;
  delegated_authority_jwt = "daa_0";
}

dispatch_action-IsPermitted_example :
    ((e : RailError) × (dispatch_action plain_world rails clocks alone alone request pay granted_db
        ≡ (err e, granted_db)))
    ⊎ ((jti : String) × (row : DelegatedAuthorityRow) × IsPermitted rails clocks pay granted_db jti
          row)
dispatch_action-IsPermitted_example =
    dispatch_action-IsPermitted rails clocks pay granted_db plain_world alone alone request

accepted : authorise rails clocks pay granted_db ≡ ok ("daa_0", to_dto granted_row none, transfer)
unfolding authorise validate_authority get_authority_by_id accept validate_row covering_scope
    get_period_usage_minor to_dto
accepted = refl

same_window :
    period_window_key transfer.period clocks.validated_at
    ≡ period_window_key transfer.period clocks.now
unfolding period_window_key
same_window = refl

dispatch_action-within_limit_example :
    ((dispatch_action plain_world rails clocks alone alone request pay granted_db).1.authority_usage
      ≡ granted_db.authority_usage)
    ⊎ ((get_period_usage_minor
            (dispatch_action plain_world rails clocks alone alone request pay
              granted_db).1.authority_usage
            "daa_0"
            "pay.transfer"
            (period_window_key transfer.period clocks.now)
          ≡ get_period_usage_minor granted_db.authority_usage "daa_0" "pay.transfer"
              (period_window_key transfer.period clocks.now)
            + 300)
        × AtMost
            (get_period_usage_minor
              (dispatch_action plain_world rails clocks alone alone request pay
                granted_db).1.authority_usage
              "daa_0"
              "pay.transfer"
              (period_window_key transfer.period clocks.now))
            (some 800))
dispatch_action-within_limit_example =
    dispatch_action-within_limit plain_world rails clocks alone alone request pay (λ d. refl)
      (λ d. refl) granted_db "daa_0" (to_dto granted_row none) transfer 300 accepted refl
      same_window

abbrev blank_action : ActionDto
blank_action = record {
  id = "";
  account_uuid = "";
  agent_id = "";
  delegated_authority_jti = none;
  target_rail = "";
  target_operation = "";
  status = ActionStatus.pending;
  initiated_by = ActionInitiatedBy.agent;
  request_payload = null;
  result = none;
  error_code = none;
  traceparent = none;
  business_op_id = none;
  created_at = "";
  completed_at = none;
}

abbrev dto_or : Result ActionDto → ActionDto
dto_or (ok dto) = dto
dto_or (err e) = blank_action

abbrev dispatched : Result ActionDto × Db
dispatched = dispatch_action plain_world rails clocks alone alone request pay granted_db
