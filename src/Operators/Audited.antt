-- ===== src/Operators/Audited.antt =====
-- What the operators' services share: the context and the audit entries of their writes.
use Prim.Native.String.{◌++◌ as concat}
use helpan_ai.Prelude.{String, Option, some}
use helpan_ai.Json.{obj, Fields}
use helpan_ai.Audit.Hash.{AuditEntry, blank_entry}
use helpan_ai.Authorities.Claims.{truthy_text}

pub record OperatorAuditContext : Type 0 where
  pub app_id : String
  pub request_id : String
  pub traceparent : Option String

-- The entry of an operator's write: its action, the resource with its id, and a detail.
unfoldable pub operator_entry :
    OperatorAuditContext → String → String → String → Fields → AuditEntry
operator_entry audit action resource id detail = record blank_entry {
  actor_type = "operator";
  actor_id = concat "app:" audit.app_id;
  action = action;
  resource_type = some resource;
  resource_id = some id;
  app_id = some audit.app_id;
  request_id = audit.request_id;
  traceparent = truthy_text audit.traceparent;
  outcome = "success";
  initiated_by = some "human";
  detail = some (obj detail);
}
