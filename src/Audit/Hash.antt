-- ===== src/Audit/Hash.antt =====
-- The two hash compositions of src/lib/auditWriter.ts.
use helpan_ai.Prelude.{String, Option, none, [], ◌∷◌, ◌or_else◌}
use helpan_ai.Json.{Json, obj, end}
use helpan_ai.Json.Stringify.{join, canonical_json}
use helpan_ai.World.{World}

-- `AppendAuditEntryInput`, which is `V2HashInput` without `id` and `previousHash`.
pub record AuditEntry : Type 0 where
  pub actor_type : String
  pub actor_id : String
  pub account_uuid : Option String
  pub action : String
  pub resource_type : Option String
  pub resource_id : Option String
  pub app_id : Option String
  pub request_id : String
  pub traceparent : Option String
  pub outcome : String
  pub detail : Option Json
  pub initiated_by : Option String
  pub agent_id : Option String
  pub delegated_authority_jti : Option String
  pub target_rail : Option String
  pub target_operation : Option String
  pub business_op_id : Option String

-- The optional fields left out.
abbrev pub blank_entry : AuditEntry
blank_entry = record {
  actor_type = "system";
  actor_id = "";
  account_uuid = none;
  action = "";
  resource_type = none;
  resource_id = none;
  app_id = none;
  request_id = "";
  traceparent = none;
  outcome = "success";
  detail = none;
  initiated_by = none;
  agent_id = none;
  delegated_authority_jti = none;
  target_rail = none;
  target_operation = none;
  business_op_id = none;
}

-- v1: id, actor, action, resource id, detail, previous hash.
unfoldable pub compute_entry_hash : World → String → AuditEntry → String → String
compute_entry_hash w id e previous = w.sha256 (
    join "|" (
      id
      ∷ e.actor_id
      ∷ e.action
      ∷ (e.resource_id or_else "")
      ∷ canonical_json (e.detail or_else obj end)
      ∷ previous
      ∷ []))

-- v2: every persisted column but `created_at`, behind the literal "v2".
unfoldable pub compute_entry_hash_v2 : World → String → AuditEntry → String → String
compute_entry_hash_v2 w id e previous = w.sha256 (
    join "|" (
      "v2"
      ∷ id
      ∷ e.actor_type
      ∷ e.actor_id
      ∷ (e.account_uuid or_else "")
      ∷ e.action
      ∷ (e.resource_type or_else "")
      ∷ (e.resource_id or_else "")
      ∷ (e.app_id or_else "")
      ∷ e.request_id
      ∷ (e.traceparent or_else "")
      ∷ e.outcome
      ∷ (e.initiated_by or_else "")
      ∷ (e.agent_id or_else "")
      ∷ (e.delegated_authority_jti or_else "")
      ∷ (e.target_rail or_else "")
      ∷ (e.target_operation or_else "")
      ∷ (e.business_op_id or_else "")
      ∷ canonical_json (e.detail or_else obj end)
      ∷ previous
      ∷ []))

pub data AuditHashVersion : Type 0 where
  v1 v2 : AuditHashVersion

unfoldable pub compute_entry_hash_for_version :
    World → AuditHashVersion → String → AuditEntry → String → String
compute_entry_hash_for_version w v1 id e previous = compute_entry_hash w id e previous
compute_entry_hash_for_version w v2 id e previous = compute_entry_hash_v2 w id e previous
