-- ===== src/Audit.antt =====
-- src/lib/auditWriter.ts: the hash-chained audit log.
pub mod Hash
pub mod Verify
pub mod Chain
pub mod Drift
use Prim.Native.String.{◌++◌, compare}
use text.Mathlib.Text.{is_lt}
use helpan_ai.Prelude.{
  ℕ, ◌+◌, String, Bool, true, false, ◌&&◌, ◌||◌, Option, none, some, List, [], ◌∷◌, ltb, nat_eq,
  last, ◌or_else◌,
}
use helpan_ai.Json.{obj, end}
use helpan_ai.World.{World}
use helpan_ai.Store.{Db}
use helpan_ai.Store.Rows.{AuditLogRow}
use helpan_ai.Store.Tx.{Tx, internal, ok, err}
use Hash.{AuditEntry, compute_entry_hash_v2}

pub record AppendedAuditEntry : Type 0 where
  pub id : String
  pub entry_hash : String
  pub previous_hash : String

-- `ORDER BY created_at, id`: whether a row stamped with this key stands before `b`.
abbrev pub key_before : ℕ → String → AuditLogRow → Bool
key_before created_at id b =
    ltb created_at b.created_at || (nat_eq created_at b.created_at && is_lt (compare id b.id))

-- An INSERT; the table stands in the order in which its readers sort it.
unfoldable pub insert_row : AuditLogRow → List AuditLogRow → List AuditLogRow
insert_row r [] = r ∷ []
insert_row r (x ∷ xs) = elim (key_before r.created_at r.id x) [
  | true ↦ r ∷ x ∷ xs
  | false ↦ x ∷ insert_row r xs
]

abbrev pub current_audit_hash_version : ℕ
current_audit_hash_version = 2

-- The row that the INSERT writes; `created_at` is the NOW() of its transaction.
unfoldable pub audit_row : World → ℕ → String → String → AuditEntry → AuditLogRow
audit_row w tx_now id previous input = record {
  id = id;
  app_id = input.app_id;
  actor_type = input.actor_type;
  actor_id = input.actor_id;
  account_uuid = input.account_uuid;
  action = input.action;
  resource_type = input.resource_type;
  resource_id = input.resource_id;
  agent_id = input.agent_id;
  delegated_authority_jti = input.delegated_authority_jti;
  target_rail = input.target_rail;
  target_operation = input.target_operation;
  business_op_id = input.business_op_id;
  request_id = input.request_id;
  traceparent = input.traceparent;
  outcome = input.outcome;
  initiated_by = input.initiated_by;
  detail = some (w.jsonb (input.detail or_else obj end));
  previous_hash = some previous;
  entry_hash = compute_entry_hash_v2 w id input previous;
  hash_version = current_audit_hash_version;
  created_at = tx_now;
}

abbrev append_after : World → ℕ → AuditEntry → Option AuditLogRow → Tx Db AppendedAuditEntry
append_after w tx_now input none db =
    err (internal "audit_log empty - genesis row missing (migration 0001 must run first)")
append_after w tx_now input (some latest) db =
    let row = audit_row w tx_now (w.ulid db.minted) latest.entry_hash input in
    ok (
      record { id = row.id; entry_hash = row.entry_hash; previous_hash = latest.entry_hash },
      record db { audit_log = insert_row row db.audit_log; minted = db.minted + 1 },
    )

-- The advisory lock makes the read of the latest row and the insert one step. A ULID is drawn only
-- where a latest row is there.
unfoldable pub append_audit_entry : World → ℕ → AuditEntry → Tx Db AppendedAuditEntry
append_audit_entry w tx_now input db = append_after w tx_now input (last db.audit_log) db
