-- ===== src/Audit/Verify.antt =====
-- scripts/verifyAuditChain.ts: the scan of the audit log that counts failures.
use helpan_ai.Prelude.{
  ℕ, zero, suc, ◌+◌, String, Bool, true, false, Option, none, some, List, [], ◌∷◌, ◌==◌,
  if◌then◌else◌, ◌or_else◌,
}
use helpan_ai.World.{World}
use helpan_ai.Store.Rows.{AuditLogRow}
use helpan_ai.Audit.Hash.{AuditEntry, AuditHashVersion, v1, v2, compute_entry_hash_for_version}

-- What the verifier passes to the hash: the columns of the row.
abbrev pub entry_of_row : AuditLogRow → AuditEntry
entry_of_row row = record {
  actor_type = row.actor_type;
  actor_id = row.actor_id;
  account_uuid = row.account_uuid;
  action = row.action;
  resource_type = row.resource_type;
  resource_id = row.resource_id;
  app_id = row.app_id;
  request_id = row.request_id;
  traceparent = row.traceparent;
  outcome = row.outcome;
  detail = row.detail;
  initiated_by = row.initiated_by;
  agent_id = row.agent_id;
  delegated_authority_jti = row.delegated_authority_jti;
  target_rail = row.target_rail;
  target_operation = row.target_operation;
  business_op_id = row.business_op_id;
}

-- `a !== b` on nullable texts.
abbrev pub same_text : Option String → Option String → Bool
same_text none none = true
same_text none (some b) = false
same_text (some a) none = false
same_text (some a) (some b) = a == b

abbrev pub genesis_action : String
genesis_action = "audit_log.genesis"

abbrev hash_version : ℕ → Option AuditHashVersion
hash_version (suc zero) = some v1
hash_version (suc (suc zero)) = some v2
hash_version _ = none

abbrev pub failure_unless : Bool → ℕ
failure_unless true = 0
failure_unless false = 1

-- The first check of a row: its pointer is the hash of the row before it.
unfoldable pub pointer_failures : Option String → AuditLogRow → ℕ
pointer_failures prior row = failure_unless (same_text row.previous_hash prior)

-- The second: its hash, recomputed under the version that it names.
unfoldable pub hash_failures : World → AuditLogRow → ℕ
hash_failures w row =
    if row.action == genesis_action
    then failure_unless (row.entry_hash == w.sha256 "helpan-ai-genesis")
    else elim (hash_version row.hash_version) [
      | none ↦ 1
      | some version ↦ failure_unless (
          compute_entry_hash_for_version w version row.id (entry_of_row row)
            (row.previous_hash or_else "")
          == row.entry_hash)
    ]

unfoldable pub verify_from : World → Option String → List AuditLogRow → ℕ
verify_from w prior [] = 0
verify_from w prior (row ∷ rows) =
    pointer_failures prior row + hash_failures w row + verify_from w (some row.entry_hash) rows

-- The failures that the script reports; it exits with 0 when there are none.
unfoldable pub verify_chain : World → List AuditLogRow → ℕ
unfolding verify_from
verify_chain w rows = verify_from w none rows
