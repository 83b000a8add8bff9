-- ===== src/Actions/Dispatch/Phases.antt =====
-- The two transactions of `dispatchAction`: phase A before the call to the target rail, phase C
-- after it.
use helpan_ai.Prelude.{ℕ, String, Option, none, some, ◌or_else◌}
use helpan_ai.Json.{Json, obj, str, nat, Fields, end, field}
use helpan_ai.Time.{CivilDate, to_iso_string}
use helpan_ai.World.{World}
use helpan_ai.Store.{Db}
use helpan_ai.Store.Rows.{ActionRow, ActionInitiatedBy}
use helpan_ai.Store.Tx.{Tx, throw, internal, ◌>>=◌, ◌>>◌, pure, modify}
use helpan_ai.Audit.{append_audit_entry}
use helpan_ai.Audit.Hash.{AuditEntry, blank_entry}
use helpan_ai.Outbox.Enqueue.{EnqueueOutboxInput, enqueue_outbox_entry}
use helpan_ai.Authorities.Repo.{increment_authority_usage}
use helpan_ai.Actions.Types.{
  DispatchOutcome, completed, failed, rejected, DispatchAuditContext, DispatchActionArgs, Clocks,
  initiated_by_text,
}
use helpan_ai.Actions.Repo.{
  InsertActionInput, insert_action, mark_action_completed, mark_action_failed,
}

-- The names that `dispatchAction` has bound when phase A begins.
pub record Prepared : Type 0 where
  pub action_id : String
  pub business_op_id : String
  pub traceparent : String
  pub initiated_by : ActionInitiatedBy
  pub jti : String
  pub agent_id : String
  pub scope_id : String
  pub payload_redacted : Json
  pub period_window : CivilDate

abbrev actor_type : ActionInitiatedBy → String
actor_type ActionInitiatedBy.human = "human"
actor_type _ = "agent"

abbrev pub action_input : DispatchAuditContext → DispatchActionArgs → Prepared → InsertActionInput
action_input audit args p = record {
  id = p.action_id;
  account_uuid = args.account_uuid;
  agent_id = p.agent_id;
  delegated_authority_jti = p.jti;
  target_rail = args.target_rail;
  target_operation = args.target_operation;
  initiated_by = p.initiated_by;
  actor_type = actor_type p.initiated_by;
  request_payload_redacted = p.payload_redacted;
  traceparent = p.traceparent;
  app_id = audit.app_id;
  app_correlation_id = none;
  business_op_id = p.business_op_id;
  idempotency_key = audit.idempotency_key;
}

-- The columns that the three entries of an action share.
abbrev action_entry :
    DispatchAuditContext → DispatchActionArgs → Prepared → String → String → Json → AuditEntry
action_entry audit args p action outcome detail = record blank_entry {
  actor_type = "agent";
  actor_id = p.agent_id;
  account_uuid = some args.account_uuid;
  action = action;
  resource_type = some "action";
  resource_id = some p.action_id;
  app_id = some audit.app_id;
  request_id = audit.request_id;
  traceparent = some p.traceparent;
  outcome = outcome;
  initiated_by = some (initiated_by_text p.initiated_by);
  agent_id = some p.agent_id;
  delegated_authority_jti = some p.jti;
  target_rail = some args.target_rail;
  target_operation = some args.target_operation;
  business_op_id = some p.business_op_id;
  detail = some detail;
}

abbrev with_amount : Option ℕ → Fields
with_amount none = end
with_amount (some amount) = field "amount_minor" (nat amount) end

unfoldable pub dispatched_entry : DispatchAuditContext → DispatchActionArgs → Prepared → AuditEntry
dispatched_entry audit args p =
    action_entry audit args p "action.dispatch" "success"
      (obj (field "request_payload" p.payload_redacted (with_amount args.amount_minor)))

abbrev action_event : DispatchActionArgs → Prepared → String → Fields → EnqueueOutboxInput
action_event args p event_type rest = record {
  topic = "helpan.action.events";
  partition_key = args.account_uuid;
  payload = obj (
      field "schema_version" (str "1.0") (
        field "event_type" (str event_type) (
          field "action_id" (str p.action_id) (
            field "account_uuid" (str args.account_uuid) (
              field "agent_id" (str p.agent_id) (
                field "delegated_authority_jti" (str p.jti) (
                  field "target_rail" (str args.target_rail) (
                    field "target_operation" (str args.target_operation) (
                      field "business_op_id" (str p.business_op_id)
                        (field "traceparent" (str p.traceparent) rest))))))))));
  headers = none;
}

unfoldable pub dispatched_event : DispatchActionArgs → Prepared → ℕ → EnqueueOutboxInput
dispatched_event args p now =
    action_event args p "ACTION_DISPATCHED" (field "occurred_at" (str (to_iso_string now)) end)

abbrev pub use_authority : Clocks → DispatchActionArgs → Prepared → Db → Db
use_authority clocks args p db = record db {
  authority_usage =
      increment_authority_usage clocks.tx_a p.jti p.scope_id p.period_window
        (args.amount_minor or_else 0) db.authority_usage;
}

unfoldable pub phase_a :
    World → Clocks → DispatchAuditContext → DispatchActionArgs → Prepared → Tx Db String
unfolding dispatched_entry dispatched_event
phase_a w clocks audit args p = do
  insert_action w clocks.tx_a (action_input audit args p)
  append_audit_entry w clocks.tx_a (dispatched_entry audit args p)
  modify (use_authority clocks args p)
  enqueue_outbox_entry w clocks.tx_a (dispatched_event args p clocks.now)

unfoldable pub completed_entry :
    DispatchAuditContext → DispatchActionArgs → Prepared → Json → ℕ → AuditEntry
completed_entry audit args p result latency =
    action_entry audit args p "action.complete" "success"
      (obj (field "result" result (field "latency_ms" (nat latency) end)))

unfoldable pub completed_event : DispatchActionArgs → Prepared → ℕ → EnqueueOutboxInput
completed_event args p completed_at =
    action_event args p "ACTION_COMPLETED"
      (field "occurred_at" (str (to_iso_string completed_at)) end)

abbrev rail_detail : Option Json → Fields
rail_detail none = end
rail_detail (some d) = field "rail_detail" d end

unfoldable pub failed_entry :
    DispatchAuditContext → DispatchActionArgs → Prepared → String → Option Json → ℕ → AuditEntry
failed_entry audit args p code detail latency =
    action_entry audit args p "action.fail" "failure"
      (obj (field "error_code" (str code) (field "latency_ms" (nat latency) (rail_detail detail))))

unfoldable pub failed_event : DispatchActionArgs → Prepared → String → ℕ → EnqueueOutboxInput
failed_event args p code completed_at =
    action_event args p "ACTION_FAILED"
      (field "error_code" (str code) (field "occurred_at" (str (to_iso_string completed_at)) end))

-- A dispatcher that threw leaves before phase C.
unfoldable pub phase_c :
    World
    → Clocks
    → DispatchAuditContext
    → DispatchActionArgs
    → Prepared
    → DispatchOutcome
    → Tx Db (Option ActionRow)
unfolding completed_entry completed_event failed_entry failed_event
phase_c w clocks audit args p (completed result latency) = do
  final ← mark_action_completed w clocks.completed_at p.action_id result
  append_audit_entry w clocks.tx_c (completed_entry audit args p result latency)
  enqueue_outbox_entry w clocks.tx_c (completed_event args p clocks.completed_at)
  pure final
phase_c w clocks audit args p (failed code detail latency) = do
  final ← mark_action_failed w clocks.completed_at p.action_id code detail
  append_audit_entry w clocks.tx_c (failed_entry audit args p code detail latency)
  enqueue_outbox_entry w clocks.tx_c (failed_event args p code clocks.completed_at)
  pure final
phase_c w clocks audit args p rejected = throw (internal "dispatcher rejected")
