-- ===== src/Tests/Chain.antt =====
-- The audit log at concrete inputs.
use helpan_ai.Prelude.{some, [], ◌∷◌, ◌≡◌, refl, ◌<◌}
use helpan_ai.Json.{nat, obj, end, field}
use helpan_ai.Json.Stringify.{decimal, stringify, canonical_json, join}
use helpan_ai.Tests.Fixtures.{plain_world, genesis_row, genesis_db}
use helpan_ai.Store.{Db}
use helpan_ai.Store.Rows.{AuditLogRow}
use helpan_ai.Store.Tx.{ok}
use helpan_ai.Audit.{AppendedAuditEntry, append_audit_entry, insert_row, audit_row}
use helpan_ai.Audit.Hash.{AuditEntry, blank_entry, compute_entry_hash_v2}
use helpan_ai.Audit.Verify.{verify_chain}
use helpan_ai.Audit.Chain.{append-verify_chain}
use helpan_ai.Audit.Drift.{append_late-verify_chain}

abbrev first_entry : AuditEntry
first_entry = record blank_entry {
  action = "briefing.create";
  detail = some (obj (field "b" (nat 10) (field "a" (nat 2) end)));
}

abbrev first_row : AuditLogRow
first_row = audit_row plain_world 20 (decimal 0) "helpan-ai-genesis" first_entry

abbrev first_db : Db
first_db = record genesis_db { audit_log = genesis_row ∷ first_row ∷ []; minted = 1 }

abbrev first_appended : AppendedAuditEntry
first_appended = record {
  id = decimal 0;
  entry_hash = first_row.entry_hash;
  previous_hash = "helpan-ai-genesis";
}

sorted_keys :
    canonical_json (obj (field "b" (nat 10) (field "a" (nat 2) end))) ≡ "{\"a\":2,\"b\":10}"
unfolding canonical_json stringify
sorted_keys = refl

append_first :
    append_audit_entry plain_world 20 first_entry genesis_db ≡ ok (first_appended, first_db)
unfolding append_audit_entry insert_row decimal audit_row
append_first = refl

-- The digests differ because the texts do.
append-verify_chain_example :
    verify_chain plain_world first_db.audit_log ≡ verify_chain plain_world genesis_db.audit_log
append-verify_chain_example =
    append-verify_chain plain_world 20 first_entry genesis_db append_first (refl, tt) refl refl

-- A second transaction that began at 10, before the first one at 20, and appends after it.
abbrev late_row : AuditLogRow
late_row = audit_row plain_world 10 (decimal 1) first_row.entry_hash first_entry

abbrev late_db : Db
late_db = record first_db { audit_log = genesis_row ∷ late_row ∷ first_row ∷ []; minted = 2 }

abbrev late_appended : AppendedAuditEntry
late_appended = record {
  id = decimal 1;
  entry_hash = late_row.entry_hash;
  previous_hash = first_row.entry_hash;
}

append_late : append_audit_entry plain_world 10 first_entry first_db ≡ ok (late_appended, late_db)
unfolding append_audit_entry insert_row decimal audit_row
append_late = refl

append_late-verify_chain_example : 0 < verify_chain plain_world late_db.audit_log
unfolding audit_row compute_entry_hash_v2 canonical_json decimal stringify join
append_late-verify_chain_example =
    append_late-verify_chain plain_world 10 first_entry first_db late_appended late_db
      (genesis_row ∷ []) first_row append_late refl refl (refl, tt)
